-- ===== src/Plaid.antt =====
-- Bank connections through Plaid (backend/app/plaid), without the requests themselves.
pub mod Connection
pub mod Sync
pub mod Changes
