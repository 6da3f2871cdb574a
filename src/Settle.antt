-- ===== src/Settle.antt =====
-- chain/x/settle: the settlement module.
pub mod Types
pub mod Fees
pub mod Params
pub mod Env
pub mod Ledger
pub mod Pay
pub mod Tabs
pub mod Treasury
pub mod Msgs
pub mod Payout
pub mod Blocks
pub mod Conservation
pub mod Attribution
pub mod Checks
pub mod Tests
