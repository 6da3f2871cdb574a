-- ===== src/Lane.antt =====
-- chain/lane/lane.go: the cap on the gas that sponsored transactions may take of a block.
pub mod Policy
pub mod Cap
pub mod Selection
pub mod Tests
