-- ===== src/Alerts.antt =====
-- Alerts (backend/app/alerts): the channels they go through, their delivery, and what raises them.
pub mod Channels
pub mod Delivery
pub mod Worker
mod Examples
