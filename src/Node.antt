-- ===== src/Node.antt =====
-- The test chain's node (testchain/node): the genesis of its chains.
pub mod ChainSpec
mod Tests
