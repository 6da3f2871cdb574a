-- ===== src/Apps.antt =====
-- chain/x/apps: the application registry and the quota engine.
pub mod Types
pub mod Params
pub mod Hll
pub mod Env
pub mod Registry
pub mod Bindings
pub mod Quota
pub mod Bonds
pub mod Msgs
pub mod Writes
pub mod Reached
pub mod Solvency
pub mod Counting
pub mod Revoked
pub mod Tests
pub mod Sketch
pub mod Estimate
pub mod QuotaBounds
pub mod Ownership
pub mod Timelock
pub mod Liveness
pub mod Releases
pub mod EpochEnds
pub mod Genesis
pub mod Indexes
pub mod RoundTrip
