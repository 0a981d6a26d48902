-- ===== src/Pallet.antt =====
-- The AMM as a Substrate pallet (pallet/src).
pub mod State
pub mod Token
pub mod Pricing
pub mod Overflowing
pub mod Bank
pub mod Reserves
pub mod Liquidity
pub mod Exchange
pub mod Extrinsics
pub mod Pool
pub mod Benchmarks
pub mod Calls
pub mod Backing
pub mod Mock
mod Tests
