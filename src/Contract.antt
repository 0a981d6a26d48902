-- ===== src/Contract.antt =====
-- The AMM as an ink! smart contract (smart_contract/src/lib.rs).
pub mod State
pub mod Token
pub mod Pricing
pub mod Status
pub mod Bank
pub mod Reserves
pub mod Liquidity
pub mod Exchange
pub mod Messages
pub mod Authority
pub mod Pool
pub mod Backing
pub mod Returning
pub mod Calls
pub mod Constructor
pub mod Mock
pub mod Fixtures
mod Tests
