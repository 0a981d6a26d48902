-- ===== src/Runtime.antt =====
-- The test chain's own code (testchain/runtime/src/lib.rs): currency ids, the pallet's extension and
-- the contract's chain extension, over the ORML pallets for tokens.
pub mod Currency
pub mod Extension
pub mod Chain
mod Tests
