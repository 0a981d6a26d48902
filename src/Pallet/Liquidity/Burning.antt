-- ===== src/Pallet/Liquidity/Burning.antt =====
-- What a successful `burn` of the pallet has done.
use pendulum_amm.Base.{
  ℕ, ◌-◌, ◌*◌, ◌≤◌, ◌<◌, ◌≡◌, ◌∙◌, ap, subst, sym, Bool, true, some, ◌&&◌, arith, ltb,
}
use pendulum_amm.Base.Action.{ok, ensure, when, ◌>>=◌, ◌>>◌}
use pendulum_amm.Base.Action.Inversion.{continue-ok, continue-unwrap, unwrapped, ensure-ok}
use pendulum_amm.Base.Dict.{lookup}
use pendulum_amm.Base.Word.{max_u128}
use pendulum_amm.Pallet.State.{
  Event, Config, World, Storage, amm, insufficient_liquidity_burned, set_storage, deposit_event,
}
use pendulum_amm.Pallet.Token.{_burn}
use pendulum_amm.Pallet.Bank.{
  InSync, transfer_tokens, storage-transfer_tokens, transfer_tokens_paid,
}
use pendulum_amm.Pallet.Reserves.{_update, _mint_fee}
use pendulum_amm.Pallet.Reserves.Frame.{_mint_fee-Charged}
use pendulum_amm.Pallet.Liquidity.{share, burn_liquidity}
use pendulum_amm.Pallet.Liquidity.Minting.{mul-share-le, charged}

module _ {O L C : Type 0} (t : Config O L C) (contract : ℕ) where
  -- The tokens after both payments.
  abbrev pub paid_out : ℕ → ℕ → ℕ → L → L
  paid_out to x y l =
      (t.amm_extension.transfer_balance contract to t.asset_1 y
        (t.amm_extension.transfer_balance contract to t.asset_0 x l).1).1

  burned :
      (from n : ℕ) (u : World L) {v : Unit}
      → (_burn from n u).0 ≡ ok v
      → ((_burn from n u).1.storage.total_supply ≡ u.storage.total_supply - n)
        × ((_burn from n u).1.ledger ≡ u.ledger)
  unfolding _burn ◌>>=◌
  burned from n u e = ground arith

  both_positive : (a b : ℕ) → (ltb 0 a && ltb 0 b) ≡ true → (0 < a) × (0 < b)
  both_positive a b e = ground arith

  -- The last steps of `burn` write the reserves, `k_last` and the event.
  record Settled (b c : ℕ) (u w' : World L) : Type 0 where
    supply : w'.storage.total_supply ≡ u.storage.total_supply
    same_ledger : w'.ledger ≡ u.ledger
    new_reserve_0 : w'.storage.reserves.reserve_0 ≡ b
    new_reserve_1 : w'.storage.reserves.reserve_1 ≡ c

  last_steps :
      (b c r s k : ℕ) (fee_on : Bool) (e : Event) (u w' : World L)
      → (_update t b c r s
            >> (when fee_on (set_storage (λ q. record q { k_last = k })) >> deposit_event e))
          u
        ≡ (ok tt, w')
      → Settled b c u w'
  unfolding _update ◌>>=◌
  last_steps b c r s k fee_on e u w' done = ground arith

  -- A successful `burn` of `shares`.
  pub record IsBurned (to shares : ℕ) (w w' : World L) : Type 0 where
    pub x : ℕ
    pub y : ℕ
    pub some_0 : 0 < x
    pub some_1 : 0 < y
    pub part_0 :
        x * (charged t contract w).storage.total_supply
        ≤ shares * t.amm_extension.fetch_balance w.ledger contract t.asset_0
    pub part_1 :
        y * (charged t contract w).storage.total_supply
        ≤ shares * t.amm_extension.fetch_balance w.ledger contract t.asset_1
    pub covered_0 : x ≤ t.amm_extension.fetch_balance w.ledger contract t.asset_0
    pub covered_1 :
        y
        ≤ t.amm_extension.fetch_balance
            (t.amm_extension.transfer_balance contract to t.asset_0 x w.ledger).1
            contract
            t.asset_1
    pub more : w.storage.total_supply ≤ (charged t contract w).storage.total_supply
    pub supply : w'.storage.total_supply ≡ (charged t contract w).storage.total_supply - shares
    pub paid : w'.ledger ≡ paid_out to x y w.ledger
    pub in_sync : InSync t contract w'

  -- A successful `burn` of the pallet, where the account of the pallet is set and has `shares`, from
  -- a supply that fits 128 bits: it has sent some of both tokens, of each at most the shares' part
  -- of what the account held, out of the supply after the fee, which only adds to it, and the
  -- account held both payments; it took the
  -- shares from the supply, and the reserves are then what the account holds.
  pub pallet_burn-IsBurned :
      (to caller shares : ℕ) (w w' : World L)
      → burn_liquidity t to caller w ≡ (ok tt, w')
      → w.storage.pallet_account_id ≡ some contract
      → lookup contract w.storage.lp_balances ≡ some shares
      → w.storage.total_supply ≤ max_u128
      → IsBurned to shares w w'
  unfolding burn_liquidity ◌>>=◌
  pallet_burn-IsBurned to caller l w w' done known owned fits =
      let r : ℕ = w.storage.reserves.reserve_0 in
      let q : ℕ = w.storage.reserves.reserve_1 in
      let b : ℕ = t.amm_extension.fetch_balance w.ledger contract t.asset_0 in
      let c : ℕ = t.amm_extension.fetch_balance w.ledger contract t.asset_1 in
      let w1 = charged t contract w in
      let s : ℕ = w1.storage.total_supply in
      let x : ℕ = share l b s in
      let y : ℕ = share l c s in
      let d1 = continue-unwrap w.storage.pallet_account_id _ w known done in
      let d2 = continue-unwrap (lookup contract w.storage.lp_balances) _ w owned d1 in
      let (fee_on, _, d3) = continue-ok (_mint_fee t r q w).0 _ _ d2 in
      let test = ensure (ltb 0 x && ltb 0 y) (amm insufficient_liquidity_burned) w1 in
      let (_, tested, d4) = continue-ok test.0 _ _ d3 in
      let fire = _burn contract l w1 in
      let (_, e1, d5) = continue-ok fire.0 _ _ d4 in
      let send_0 = transfer_tokens t contract to t.asset_0 x fire.1 in
      let (_, e2, d6) = continue-ok send_0.0 _ _ d5 in
      let send_1 = transfer_tokens t contract to t.asset_1 y send_0.1 in
      let (_, e3, d7) = continue-ok send_1.0 _ _ d6 in
      let end = last_steps _ _ r q _ fee_on _ send_1.1 w' d7 in
      let fee = _mint_fee-Charged t w r q fits in
      let (some_0, some_1) = both_positive x y (ensure-ok _ _ w1 tested) in
      let (fewer, same) = burned contract l w1 e1 in
      let paid_0 = transfer_tokens_paid t contract to t.asset_0 x fire.1 e2 in
      let paid_1 = transfer_tokens_paid t contract to t.asset_1 y send_0.1 e3 in
      let untouched = same ∙ fee.same_ledger in
      let kept : send_1.1.storage ≡ fire.1.storage =
        storage-transfer_tokens t contract to t.asset_1 y send_0.1
        ∙ storage-transfer_tokens t contract to t.asset_0 x fire.1 in
      let pay_0 = λ (m : L). (t.amm_extension.transfer_balance contract to t.asset_0 x m).1 in
      let pay_1 = λ (m : L). (t.amm_extension.transfer_balance contract to t.asset_1 y m).1 in
      record {
        x = x;
        y = y;
        some_0 = some_0;
        some_1 = some_1;
        part_0 = mul-share-le l b s;
        part_1 = mul-share-le l c s;
        covered_0 =
            subst (λ m. x ≤ t.amm_extension.fetch_balance m contract t.asset_0) untouched paid_0.0;
        covered_1 =
            subst (λ m. y ≤ t.amm_extension.fetch_balance m contract t.asset_1)
              (paid_0.1 ∙ ap pay_0 untouched) paid_1.0;
        more = fee.more;
        supply = end.supply ∙ ap (λ (v : Storage). v.total_supply) kept ∙ fewer;
        paid =
            end.same_ledger
            ∙ paid_1.1
            ∙ ap pay_1 (paid_0.1)
            ∙ ap (λ (m : L). pay_1 (pay_0 m)) untouched;
        in_sync = record {
          first =
              end.new_reserve_0
              ∙ ap (λ (m : L). t.amm_extension.fetch_balance m contract t.asset_0)
                  (sym end.same_ledger);
          second =
              end.new_reserve_1
              ∙ ap (λ (m : L). t.amm_extension.fetch_balance m contract t.asset_1)
                  (sym end.same_ledger);
        };
      }

  -- It cannot succeed where the account has no entry of liquidity tokens.
  pub burn_owned :
      (to caller : ℕ) (w w' : World L)
      → burn_liquidity t to caller w ≡ (ok tt, w')
      → w.storage.pallet_account_id ≡ some contract
      → (shares : ℕ) × (lookup contract w.storage.lp_balances ≡ some shares)
  unfolding burn_liquidity ◌>>=◌
  burn_owned to caller w w' done known =
      unwrapped (lookup contract w.storage.lp_balances) _ w w'
        (continue-unwrap w.storage.pallet_account_id _ w known done)
