-- ===== src/Contract/Pool/Steps.antt =====
-- The contract's messages as steps of the pool.
use pendulum_amm.Base.{
  ℕ, ◌<◌, ◌≡◌, ◌∙◌, sym, refl, ap, ◌&&◌, ◌==◌, Bool, true, false, if◌then◌else◌, Option, none, some,
  arith,
}
use pendulum_amm.Base.Action.{Outcome, ok, pure, lift, ◌>>=◌, ◌>>◌}
use pendulum_amm.Base.Action.Inversion.{continue-ok}
use pendulum_amm.Base.Nonlinear.{mul_mono}
use pendulum_amm.Base.Word.{max_u128, checked_sub}
use pendulum_amm.Contract.State.{Asset, Error, Pair, Host, World}
use pendulum_amm.Contract.Pricing.{get_amount_in, quote}
use pendulum_amm.Contract.Bank.{balance_of-ok, held, transfer_tokens, pair-transfer_tokens}
use pendulum_amm.Contract.Reserves.{_update}
use pendulum_amm.Contract.Reserves.Frame.{_update_lem}
use pendulum_amm.Contract.Exchange.{_swap}
use pendulum_amm.Contract.Exchange.Product.{swap_sound}
use pendulum_amm.Contract.Liquidity.{mint_liquidity}
use pendulum_amm.Contract.Messages.{
  set_fee_to, send_surplus, skim, sync, deposit_asset_1, deposit_asset_2, swap_asset_1_for_asset_2,
  swap_asset_2_for_asset_1,
}
use pendulum_amm.Pool.{Step, trade}
use pendulum_amm.Contract.Pool.{IsOpen, pool_of}
use pendulum_amm.Contract.Pool.Liquidity.{mint_liquidity-Step}

module _ {L : Type 0} (h : Host L) where
  -- A write that leaves the storage alone, before a step.
  Step-after :
      (w u w' : World L)
      → u.pair ≡ w.pair
      → Step (pool_of u) (pool_of w')
      → Step (pool_of w) (pool_of w')
  Step-after w u w' same s = rw (sym same) s

  unmoved : (w w' : World L) → w'.pair ≡ w.pair → Step (pool_of w) (pool_of w')
  unmoved w w' same =
      trade (pool_of w') (ap (λ (p : Pair). p.total_supply) same) (rw same (omega arith))

  mint_after :
      (n : ℕ) (w u w' : World L)
      → u.pair ≡ w.pair
      → mint_liquidity h h.caller u ≡ (ok n, w')
      → IsOpen h w
      → w'.pair.total_supply < max_u128
      → Step (pool_of w) (pool_of w')
  mint_after n w u w' same done open_pool below = Step-after w u w' same (
      mint_liquidity-Step h h.caller n u w' done (rw same open_pool.no_fee)
        (rw same open_pool.some_shares) (rw same open_pool.supply_fits) below)

  swap_after :
      (a b : ℕ) (w u w' : World L)
      → u.pair ≡ w.pair
      → _swap h a b h.caller u ≡ (ok tt, w')
      → IsOpen h w
      → Step (pool_of w) (pool_of w')
  swap_after a b w u w' same done open_pool =
      let (grown, _, supply, _, _, _) =
        swap_sound h a b h.caller u w' done (rw same open_pool.product_fits) in
      Step-after w u w' same (trade (pool_of w') supply grown)

  send_surplus_pair :
      (to : ℕ) (s : Asset) (o : Option ℕ) (w : World L) → (send_surplus h to s o w).1.pair ≡ w.pair
  unfolding send_surplus ◌>>=◌
  send_surplus_pair to s none w = refl
  send_surplus_pair to s (some n) w = pair-transfer_tokens h h.account_id to s n w

  -- `skim` and `set_fee_to` do not touch the pool.
  pub skim-Step :
      (to : ℕ) (w w' : World L) → skim h to w ≡ (ok tt, w') → Step (pool_of w) (pool_of w')
  unfolding skim ◌>>=◌
  skim-Step to w w' done =
      let o = checked_sub (held h w.ledger h.account_id w.pair.asset_0) w.pair.reserve_0 in
      let w1 = (send_surplus h to w.pair.asset_0 o w).1 in
      let read_0 = balance_of-ok h h.account_id w.pair.asset_0 _ w done in
      let (_, _, d) = continue-ok (send_surplus h to w.pair.asset_0 o w).0 _ _ read_0 in
      let read_1 = balance_of-ok h h.account_id w.pair.asset_1 _ w1 d in
      let o' = checked_sub (held h w1.ledger h.account_id w.pair.asset_1) w.pair.reserve_1 in
      let end : (send_surplus h to w.pair.asset_1 o' w1).1 ≡ w' =
        ap (λ (p : Outcome Error Unit × World L). p.1) read_1 in
      unmoved w w' (
        ap (λ (v : World L). v.pair) (sym end)
        ∙ send_surplus_pair to w.pair.asset_1 o' w1
        ∙ send_surplus_pair to w.pair.asset_0 o w)

  pub set_fee_to-Step :
      (to : ℕ) (w w' : World L) → set_fee_to h to w ≡ (ok tt, w') → Step (pool_of w) (pool_of w')
  unfolding set_fee_to ◌>>=◌
  set_fee_to-Step to w w' done = trade (pool_of w') (ground arith) (ground arith)

  pub sync-Step :
      (w w' : World L) → sync h w ≡ (ok tt, w') → IsOpen h w → Step (pool_of w) (pool_of w')
  unfolding sync ◌>>=◌
  sync-Step w w' done open_pool =
      let a : ℕ = held h w.ledger h.account_id w.pair.asset_0 in
      let b : ℕ = held h w.ledger h.account_id w.pair.asset_1 in
      let read_0 = balance_of-ok h h.account_id w.pair.asset_0 _ w done in
      let read_1 = balance_of-ok h h.account_id w.pair.asset_1 _ w read_0 in
      let set = _update_lem h w a b w.pair.reserve_0 w.pair.reserve_1 in
      let end : w' ≡ (_update h a b w.pair.reserve_0 w.pair.reserve_1 w).1 =
        sym (ap (λ (p : Outcome Error Unit × World L). p.1) read_1) in
      let grown = mul_mono _ _ _ _ open_pool.covered_0 open_pool.covered_1 in
      trade (pool_of w') (ap (λ (v : World L). v.pair.total_supply) end ∙ set.same_supply)
        (rw (end, set.new_reserve_0, set.new_reserve_1) grown)

  -- Both tokens come in, and then the liquidity is granted.
  deposited :
      (s t : Asset) (a b n : ℕ) (w u w' : World L)
      → u.pair ≡ w.pair
      → (transfer_tokens h h.caller h.account_id s a
            >> (transfer_tokens h h.caller h.account_id t b >> mint_liquidity h h.caller))
          u
        ≡ (ok n, w')
      → IsOpen h w
      → w'.pair.total_supply < max_u128
      → Step (pool_of w) (pool_of w')
  unfolding ◌>>=◌
  deposited s t a b n w u w' same done open_pool below =
      let paid_0 = transfer_tokens h h.caller h.account_id s a u in
      let paid_1 = transfer_tokens h h.caller h.account_id t b paid_0.1 in
      let (_, _, d) = continue-ok paid_0.0 _ _ done in
      let (_, _, d') = continue-ok paid_1.0 _ _ d in
      mint_after n w paid_1.1 w'
        (pair-transfer_tokens h h.caller h.account_id t b paid_0.1
          ∙ pair-transfer_tokens h h.caller h.account_id s a u
          ∙ same)
        d' open_pool below

  -- The quote of a deposit is only read.
  pub quoted_pair :
      (b : Bool) (a : ℕ) (o : Outcome Error ℕ) (w : World L)
      → ((if b then pure a else lift o) w).1.pair ≡ w.pair
  unfolding ◌>>=◌
  quoted_pair true a o w = refl
  quoted_pair false a o w = refl

  pub deposit_asset_1-Step :
      (amount n : ℕ) (w w' : World L)
      → deposit_asset_1 h amount w ≡ (ok n, w')
      → IsOpen h w
      → w'.pair.total_supply < max_u128
      → Step (pool_of w) (pool_of w')
  unfolding deposit_asset_1 ◌>>=◌
  deposit_asset_1-Step amount n w w' done open_pool below =
      let p = w.pair in
      let first = p.reserve_0 == 0 && p.reserve_1 == 0 in
      let o = quote amount p.reserve_0 p.reserve_1 in
      let quoted = (if first then pure amount else lift o) w in
      let (amount_1, _, d) = continue-ok quoted.0 _ _ done in
      deposited p.asset_0 p.asset_1 amount amount_1 n w quoted.1 w' (quoted_pair first amount o w) d
        open_pool below

  pub deposit_asset_2-Step :
      (amount n : ℕ) (w w' : World L)
      → deposit_asset_2 h amount w ≡ (ok n, w')
      → IsOpen h w
      → w'.pair.total_supply < max_u128
      → Step (pool_of w) (pool_of w')
  unfolding deposit_asset_2 ◌>>=◌
  deposit_asset_2-Step amount n w w' done open_pool below =
      let p = w.pair in
      let first = p.reserve_0 == 0 && p.reserve_1 == 0 in
      let o = quote amount p.reserve_1 p.reserve_0 in
      let quoted = (if first then pure amount else lift o) w in
      let (amount_0, _, d) = continue-ok quoted.0 _ _ done in
      deposited p.asset_0 p.asset_1 amount_0 amount n w quoted.1 w' (quoted_pair first amount o w) d
        open_pool below

  pub swap_asset_1_for_asset_2-Step :
      (n : ℕ) (w w' : World L)
      → swap_asset_1_for_asset_2 h n w ≡ (ok tt, w')
      → IsOpen h w
      → Step (pool_of w) (pool_of w')
  unfolding swap_asset_1_for_asset_2 ◌>>=◌
  swap_asset_1_for_asset_2-Step n w w' done open_pool =
      let p = w.pair in
      let (a, _, d) = continue-ok (get_amount_in n p.reserve_0 p.reserve_1) _ _ done in
      let paid = transfer_tokens h h.caller h.account_id p.asset_0 a w in
      let (_, _, d') = continue-ok paid.0 _ _ d in
      swap_after 0 n w paid.1 w' (pair-transfer_tokens h h.caller h.account_id p.asset_0 a w) d'
        open_pool

  pub swap_asset_2_for_asset_1-Step :
      (n : ℕ) (w w' : World L)
      → swap_asset_2_for_asset_1 h n w ≡ (ok tt, w')
      → IsOpen h w
      → Step (pool_of w) (pool_of w')
  unfolding swap_asset_2_for_asset_1 ◌>>=◌
  swap_asset_2_for_asset_1-Step n w w' done open_pool =
      let p = w.pair in
      let (a, _, d) = continue-ok (get_amount_in n p.reserve_1 p.reserve_0) _ _ done in
      let paid = transfer_tokens h h.caller h.account_id p.asset_1 a w in
      let (_, _, d') = continue-ok paid.0 _ _ d in
      swap_after n 0 w paid.1 w' (pair-transfer_tokens h h.caller h.account_id p.asset_1 a w) d'
        open_pool
