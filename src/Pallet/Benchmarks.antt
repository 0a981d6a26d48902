-- ===== src/Pallet/Benchmarks.antt =====
-- The benchmarks of pallet/src/benchmarking.rs: what each sets up, the call that it measures, and
-- what it verifies. Plain arithmetic of balances panics where it leaves the type.
pub mod Passing
pub mod Trading
use pendulum_amm.Base.{
  ℕ, ◌+◌, ◌-◌, ◌*◌, Bool, not, Option, none, some, ltb, leb, ◌==◌, if◌then◌else◌,
}
use pendulum_amm.Base.Action.{Outcome, ok, err, panic, pure, lift, gets, unwrap, ◌>>=◌, ◌>>◌}
use pendulum_amm.Base.Word.{max_u128}
use pendulum_amm.Pallet.State.{DispatchError, BalanceReserves, Config, World, Call, set_storage}
use pendulum_amm.Pallet.Bank.{balance_of}
use pendulum_amm.Pallet.Extrinsics

-- `.expect(…)` of a call's result
abbrev pub expect : {A : Type 0} → Outcome DispatchError A → Outcome DispatchError A
expect (ok a) = ok a
expect (err e) = panic
expect panic = panic

module _ {L : Type 0} where
  -- `assert!`
  abbrev pub assert : Bool → Call L Unit
  assert test = lift (if test then ok tt else panic)

  abbrev pub plus : ℕ → ℕ → Call L ℕ
  plus a b = lift (if leb (a + b) max_u128 then ok (a + b) else panic)

  abbrev pub minus : ℕ → ℕ → Call L ℕ
  minus a b = lift (if leb b a then ok (a - b) else panic)

  abbrev pub times : ℕ → ℕ → Call L ℕ
  times a b = lift (if leb (a * b) max_u128 then ok (a * b) else panic)

  abbrev pub expected : {A : Type 0} → Call L A → Call L A
  expected m w = let (r, w') = m w in (expect r, w')

  -- `reserves::<T>()`
  abbrev pub reserves : Call L BalanceReserves
  reserves = gets (λ w. w.storage.reserves)

  abbrev pub contract_account : Call L ℕ
  contract_account = do found ← gets (λ w. w.storage.pallet_account_id); unwrap found

  abbrev pub setter : Call L ℕ
  setter = do found ← gets (λ w. w.storage.fee_to_setter); unwrap found

-- `RawOrigin::Signed`, `whitelisted_caller()` and `account("Alice", 0, 0)`.
pub record Accounts (O : Type 0) : Type 0 where
  pub signed : ℕ → O
  pub whitelisted_caller : ℕ
  pub alice : ℕ

module _ {O L C : Type 0} (t : Config O L C) (a : Accounts O) where
  unfoldable pub set_fee_to : Call L Unit
  set_fee_to = do
    set_storage (λ s. record s { fee_to_setter = some a.whitelisted_caller })
    Extrinsics.set_fee_to t (a.signed a.whitelisted_caller) a.alice
    found ← gets (λ w. w.storage.fee_to)
    fee_to ← unwrap found
    assert (fee_to == a.alice)

  unfoldable pub skim : Call L Unit
  skim = do
    Extrinsics.skim t (a.signed a.whitelisted_caller)
    verify_asset_0 ← balance_of t a.whitelisted_caller t.asset_0
    assert (verify_asset_0 == 0)
    verify_asset_1 ← balance_of t a.whitelisted_caller t.asset_1
    assert (verify_asset_1 == 0)

  -- `set_timestamp` changes what the pallet reads as the time.
  unfoldable pub sync : Call L Unit
  sync = do
    set_storage (λ s. record s {
      reserves = record { reserve_0 = 10; reserve_1 = 5; block_timestamp_last = 2 };
    })
    let t' = record t { now = 3 }
    orig ← reserves
    Extrinsics.sync t' (a.signed a.whitelisted_caller)
    contract ← contract_account
    balance_0 ← balance_of t' contract t.asset_0
    balance_1 ← balance_of t' contract t.asset_1
    new ← reserves
    assert (not (new.reserve_0 == orig.reserve_0))
    assert (new.reserve_0 == balance_0)
    assert (not (new.reserve_1 == orig.reserve_1))
    assert (new.reserve_1 == balance_1)
    assert (ltb orig.block_timestamp_last new.block_timestamp_last)
