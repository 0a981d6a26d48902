-- ===== src/Lib.antt =====
-- Verification of the Pendulum AMM: a market maker for one pair of assets after Uniswap V2, once
-- as an ink! smart contract and once as a Substrate pallet.
--
-- The program and the model.
-- * smart_contract/src/lib.rs, `mod amm`: the contract. State is its storage (`Pair`), errors and
--   events; Token has `_mint`, `_burn` and `_transfer_liquidity`; Pricing has `get_amount_out`,
--   `get_amount_in` and `quote`; Bank has `balance_of` and `transfer_tokens`; Reserves has
--   `_update` and `_mint_fee`; Liquidity has `mint` and `burn`; Exchange has `_swap`; Messages
--   has the messages, composed of these as in the source; Calls has the messages as data and the
--   states that calls reach; Constructor has `new` and the text getters; Status has the status
--   codes of the chain extension. Mock is the token extension of the contract's own tests.
-- * smart_contract/src/lib.rs, `mod util`, `mod base32` and `mod key_encoding`: Encoding, with
--   the check of Rust's `str` in Utf8.
-- * pallet/src/lib.rs and pallet/src/helper.rs: Pallet, in modules of the same names, with
--   Overflowing for the two overflow helpers and Extrinsics for the dispatchable calls;
--   pallet/src/mock.rs: Pallet/Mock, the instance of the pallet's parameters in its tests;
--   pallet/src/benchmarking.rs: Pallet/Benchmarks, with what each benchmark sets up, the call
--   that it measures and what it verifies.
-- * testchain/runtime/src/lib.rs, what serves the AMM: Runtime, with the currencies in Currency,
--   the pallet's extension and constants in Extension, and in Chain the chain extension as the
--   contract's host.
-- * testchain/node/src/chain_spec.rs and `load_spec` of testchain/node/src/command.rs: Node, with
--   the genesis of the preset chains.
-- Pool is an abstract pool of two reserves and shares; Contract/Pool and Pallet/Pool compare the
-- messages and the calls with it.
-- Proofs stand in modules beneath what they are about (Token/Supply, Exchange/Product, ...),
-- those on all messages in Backing, Authority and Returning, and runs at concrete inputs
-- in Tests. A call is a function from a state to an outcome and a state (Base/Action): a result,
-- an error or a panic, with the state as it then is. The contract's state comes with the state of
-- the tokens, which only the chain extension changes, and with the events.
--
-- Numbers. `Balance` is `u128` and `Moment` is `u64`; the saturating, checked and wrapping
-- operations are written out over the natural numbers in Base/Word. An account is the number of
-- its bytes.
--
-- Parameters. `Host` holds what the contract takes from outside: the two functions of the chain
-- extension over an abstract token state, `num_integer::sqrt`, and the caller, account and time
-- of the call. `Config` holds the same for the pallet: `AmmExtension`, the constants of the
-- runtime, `ensure_signed`, the time and `integer_sqrt`. What is asked of the tokens behind the
-- extension, where it is asked, is the record `IsLawful` of Contract/Bank/Lawful and of
-- Pallet/Bank/Lawful. A read of a balance by the contract panics on a status that it does not
-- know; that no read has such a status is, where it is asked, the record `Answers` of
-- Contract/Bank. `MultiCurrency` holds the currencies' pallets of the test chain, and
-- `Environment` the input of a chain extension, decoded, and its output. `KeyPairs` holds what the
-- genesis takes of sr25519; the runtime's binary and the reading of files are arguments.
--
-- Loops. Those of the encodings run over a byte string, so no fuel is used but in `root`, the
-- square roots of the tests, where 64 rounds serve every `u128`.
--
-- Not modelled: the roll-back of a failed call, where the platform does one (the state after an
-- error is the one that the code leaves); SCALE encoding and the dispatch of messages; weights,
-- the rest of the test chain's node, and of its runtime the configuration of the other pallets,
-- the block and API plumbing. The steps of the pool are stated without a receiver of the protocol
-- fee, whose grant takes from every share.
pub mod Base
pub mod Pool
pub mod Contract
pub mod Pallet
pub mod Encoding
pub mod Runtime
pub mod Node
