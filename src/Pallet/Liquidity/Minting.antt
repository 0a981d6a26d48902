-- ===== src/Pallet/Liquidity/Minting.antt =====
-- What a successful `mint` of the pallet has done.
use pendulum_amm.Base.{
  ℕ, ◌+◌, ◌*◌, ◌≤◌, ◌<◌, ◌≡◌, ◌≢◌, ◌∙◌, ap, sym, min, Bool, true, some, arith, ltb,
}
use pendulum_amm.Base.Action.{Outcome, ok, ensure, when, ◌>>=◌, ◌>>◌}
use pendulum_amm.Base.Action.Inversion.{continue-ok, continue-unwrap, ensure-ok}
use pendulum_amm.Base.Word.{max_u128, saturating_add, saturating_mul, checked_sub, unwrap_or}
use pendulum_amm.Base.Nonlinear.{mul_mono, div-mul-le}
use pendulum_amm.Base.Products.{undiluted}
use pendulum_amm.Pallet.State.{
  DispatchError, Event, Config, World, amm, insufficient_liquidity_minted, set_storage,
  deposit_event,
}
use pendulum_amm.Pallet.Token.{_mint}
use pendulum_amm.Pallet.Bank.{InSync}
use pendulum_amm.Pallet.Reserves.{_update, _mint_fee}
use pendulum_amm.Pallet.Reserves.Frame.{_mint_fee-Charged}
use pendulum_amm.Pallet.Liquidity.{share, new_liquidity, mint_liquidity}

-- A share never gives more than the proportion, and 0 of an empty reserve.
pub mul-share-le :
    (amount supply reserve : ℕ) → share amount supply reserve * reserve ≤ amount * supply
unfolding share
mul-share-le a t r = ground (arith, div-mul-le (saturating_mul a t) r)

ok-same : {m n : ℕ} {r : Outcome DispatchError ℕ} → r ≡ ok m → r ≡ ok n → m ≡ n
ok-same p q = cc

positive : (n : ℕ) → ltb 0 n ≡ true → 0 < n
positive n e = ground arith

module _ {O L C : Type 0} (t : Config O L C) (contract : ℕ) where
  -- The amounts that `mint` finds above the reserves.
  abbrev pub surplus_0 : World L → ℕ
  surplus_0 w =
      unwrap_or
        (checked_sub (t.amm_extension.fetch_balance w.ledger contract t.asset_0)
          w.storage.reserves.reserve_0)
        0

  abbrev pub surplus_1 : World L → ℕ
  surplus_1 w =
      unwrap_or
        (checked_sub (t.amm_extension.fetch_balance w.ledger contract t.asset_1)
          w.storage.reserves.reserve_1)
        0

  -- The state after the fee.
  abbrev pub charged : World L → World L
  charged w = (_mint_fee t w.storage.reserves.reserve_0 w.storage.reserves.reserve_1 w).1

  -- The last steps of `mint` write the liquidity, the reserves, `k_last` and the event.
  record Granted (n b c : ℕ) (u w' : World L) : Type 0 where
    supply : w'.storage.total_supply ≡ saturating_add u.storage.total_supply n
    same_ledger : w'.ledger ≡ u.ledger
    new_reserve_0 : w'.storage.reserves.reserve_0 ≡ b
    new_reserve_1 : w'.storage.reserves.reserve_1 ≡ c

  last_steps :
      (to n b c r s k : ℕ) (fee_on : Bool) (e : Event) (u w' : World L)
      → (_mint to n
            >> (_update t b c r s
                >> (when fee_on (set_storage (λ q. record q { k_last = k })) >> deposit_event e)))
          u
        ≡ (ok tt, w')
      → Granted n b c u w'
  unfolding _mint _update ◌>>=◌
  last_steps to n b c r s k fee_on e u w' done = ground arith

  -- The grant of a later deposit is the smaller share, and writes nothing.
  grant_later :
      (s a b r q : ℕ) (w : World L)
      → s ≢ 0
      → new_liquidity t s a b r q w ≡ (ok (min (share a s r) (share b s q)), w)
  unfolding new_liquidity ◌>>=◌
  grant_later s a b r q w ne = ground arith

  -- A successful `mint` after the first one in its steps.
  record MintRun (w w' : World L) : Type 0 where
    l : ℕ
    some_shares : 0 < l
    more : w.storage.total_supply ≤ (charged w).storage.total_supply
    left : l * w.storage.reserves.reserve_0 ≤ surplus_0 w * (charged w).storage.total_supply
    right : l * w.storage.reserves.reserve_1 ≤ surplus_1 w * (charged w).storage.total_supply
    total : w'.storage.total_supply ≡ (charged w).storage.total_supply + l
    ledger : w'.ledger ≡ w.ledger
    new_reserve_0 :
        w'.storage.reserves.reserve_0 ≡ t.amm_extension.fetch_balance w.ledger contract t.asset_0
    new_reserve_1 :
        w'.storage.reserves.reserve_1 ≡ t.amm_extension.fetch_balance w.ledger contract t.asset_1

  mint_run :
      (to caller : ℕ) (w w' : World L)
      → mint_liquidity t to caller w ≡ (ok tt, w')
      → w.storage.pallet_account_id ≡ some contract
      → 0 < w.storage.total_supply
      → w.storage.total_supply ≤ max_u128
      → w'.storage.total_supply < max_u128
      → MintRun w w'
  unfolding mint_liquidity ◌>>=◌
  mint_run to caller w w' done known started fits below =
      let r : ℕ = w.storage.reserves.reserve_0 in
      let q : ℕ = w.storage.reserves.reserve_1 in
      let d1 = continue-unwrap w.storage.pallet_account_id _ w known done in
      let (fee_on, _, d2) = continue-ok (_mint_fee t r q w).0 _ _ d1 in
      let s : ℕ = (charged w).storage.total_supply in
      let fee = _mint_fee-Charged t w r q fits in
      let a : ℕ = surplus_0 w in
      let b : ℕ = surplus_1 w in
      let n : ℕ = min (share a s r) (share b s q) in
      let granted = grant_later s a b r q (charged w) (omega (arith, fee.more, started)) in
      let grant = new_liquidity t s a b r q (charged w) in
      let (l, e, d3) = continue-ok grant.0 _ _ d2 in
      let same : l ≡ n = ok-same e (ap (λ (p : Outcome DispatchError ℕ × World L). p.0) granted) in
      let at : grant.1 ≡ charged w = ap (λ (p : Outcome DispatchError ℕ × World L). p.1) granted in
      let (_, tested, d4) =
        continue-ok (ensure (ltb 0 l) (amm insufficient_liquidity_minted) grant.1).0 _ _ d3 in
      let some_shares : 0 < l =
        positive l (ensure-ok (ltb 0 l) (amm insufficient_liquidity_minted) grant.1 tested) in
      let end = last_steps to l _ _ r q _ fee_on _ grant.1 w' d4 in
      let total : w'.storage.total_supply ≡ s + l =
        omega (arith, end.supply, ap (λ (v : World L). v.storage.total_supply) at, below) in
      let left : l * r ≤ a * s = omega (
        arith,
        mul_mono l (share a s r) r r (omega (arith, same)) (omega arith),
        mul-share-le a s r,
      ) in
      let right : l * q ≤ b * s = omega (
        arith,
        mul_mono l (share b s q) q q (omega (arith, same)) (omega arith),
        mul-share-le b s q,
      ) in
      record {
        l = l;
        some_shares = some_shares;
        more = fee.more;
        left = left;
        right = right;
        total = total;
        ledger = end.same_ledger ∙ ap (λ (v : World L). v.ledger) at ∙ fee.same_ledger;
        new_reserve_0 = end.new_reserve_0;
        new_reserve_1 = end.new_reserve_1;
      }

  -- What the steps come to.
  mint_outcome :
      (w w' : World L)
      → MintRun w w'
      → let supply : ℕ = (charged w).storage.total_supply in
        let r = w.storage.reserves in
        let r' = w'.storage.reserves in
        (w.storage.total_supply ≤ supply)
        × (supply < w'.storage.total_supply)
        × (r.reserve_0 * w'.storage.total_supply ≤ r'.reserve_0 * supply)
        × (r.reserve_1 * w'.storage.total_supply ≤ r'.reserve_1 * supply)
        × InSync t contract w'
  mint_outcome w w' run =
      let r : ℕ = w.storage.reserves.reserve_0 in
      let q : ℕ = w.storage.reserves.reserve_1 in
      let s : ℕ = (charged w).storage.total_supply in
      (
        run.more,
        omega (arith, run.total, run.some_shares),
        rw (run.total, run.new_reserve_0) (undiluted r _ s run.l run.some_shares run.left),
        rw (run.total, run.new_reserve_1) (undiluted q _ s run.l run.some_shares run.right),
        record {
          first =
              run.new_reserve_0
              ∙ ap (λ (m : L). t.amm_extension.fetch_balance m contract t.asset_0) (sym run.ledger);
          second =
              run.new_reserve_1
              ∙ ap (λ (m : L). t.amm_extension.fetch_balance m contract t.asset_1) (sym run.ledger);
        },
      )

  -- A successful `mint` of the pallet after the first one, where the account of the pallet is set,
  -- from a supply that fits 128 bits and to one below that cap: it grants some shares, no share of
  -- the pool loses value in either token by the grant (reserve over supply does not fall, the fee
  -- of the same call counted before), the fee only adds to the supply, and the reserves are what
  -- that account holds.
  pub pallet_mint_sound :
      (to caller : ℕ) (w w' : World L)
      → mint_liquidity t to caller w ≡ (ok tt, w')
      → w.storage.pallet_account_id ≡ some contract
      → 0 < w.storage.total_supply
      → w.storage.total_supply ≤ max_u128
      → w'.storage.total_supply < max_u128
      → let supply : ℕ = (charged w).storage.total_supply in
        let r = w.storage.reserves in
        let r' = w'.storage.reserves in
        (w.storage.total_supply ≤ supply)
        × (supply < w'.storage.total_supply)
        × (r.reserve_0 * w'.storage.total_supply ≤ r'.reserve_0 * supply)
        × (r.reserve_1 * w'.storage.total_supply ≤ r'.reserve_1 * supply)
        × InSync t contract w'
  pallet_mint_sound to caller w w' done known started fits below =
      mint_outcome w w' (mint_run to caller w w' done known started fits below)
