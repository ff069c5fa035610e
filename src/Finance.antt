-- ===== src/Finance.antt =====
-- The household's money (backend/app/finance).
pub mod Periods
pub mod Store
pub mod Text
pub mod Subscriptions
pub mod Recurring
pub mod Automations
pub mod Budget
pub mod Ledger
