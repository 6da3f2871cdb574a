-- ===== src/Council.antt =====
-- chain/x/council: the admission of validators and the emergency pauses.
pub mod Keeper
pub mod Msgs
pub mod IbcGuard
pub mod Breaker
pub mod Pauses
pub mod Admissions
pub mod Removals
pub mod Reached
pub mod Tests
