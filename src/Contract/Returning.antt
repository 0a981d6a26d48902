-- ===== src/Contract/Returning.antt =====
-- Where `mint`, `burn` and `_swap` of the contract come back without a panic.
pub mod Messages
use pendulum_amm.Base.{
  ℕ, ◌≤◌, ◌<◌, ◌≡◌, ◌≢◌, arith, Bool, Bool-cases, inl, inr, if◌then◌else◌, Option, none, some, ltb,
  ◌==◌, ◌&&◌, ◌∙◌, sym, ap,
}
use pendulum_amm.Base.Action.{Outcome, panic, pure, lift, gets, ◌>>=◌, ◌>>◌}
use pendulum_amm.Base.Action.Returning.{
  ReturnsAt, Returns, ReturnsAt-seq, ReturnsAt-seq_gets, Returns-lift, Returns-gets, return_rules,
}
use pendulum_amm.Base.Word.{max_u128, saturating_mul}
use pendulum_amm.Contract.State.{Asset, Error, Event, Pair, Host, World, Call}
use pendulum_amm.Contract.Token.{lp_balance_of, _mint, _burn, _transfer_liquidity}
use pendulum_amm.Contract.Pricing.{get_amount_in, quote}
use pendulum_amm.Contract.Bank.{
  Answers, settled_returns, balance_of, held, transfer_tokens, pair-transfer_tokens,
}
use pendulum_amm.Contract.Reserves.{_update, fee_liquidity, mint_growth, collect_fee, _mint_fee}
use pendulum_amm.Contract.Reserves.Frame.{_mint_fee_supply}
use pendulum_amm.Contract.Liquidity.{
  share, new_liquidity, finish_mint, mint_liquidity, finish_burn, burn_liquidity,
}
use pendulum_amm.Contract.Exchange.{_swap}
use pendulum_amm.Contract.Messages.{
  set_fee_to, send_surplus, skim, sync, deposit_asset_1, deposit_asset_2, withdraw,
  swap_asset_1_for_asset_2, swap_asset_2_for_asset_1,
}
use pendulum_amm.Contract.Pool.Steps.{quoted_pair}
use pendulum_amm.Contract.Calls.{Message, execute}

-- The pure functions that divide.
pub quote_returns : (a r s : ℕ) → quote a r s ≢ panic
unfolding quote
quote_returns a r s = ground arith

pub get_amount_in_returns : (n r s : ℕ) → n < s → get_amount_in n r s ≢ panic
unfolding get_amount_in
get_amount_in_returns n r s below = ground arith

share_returns : (a t r : ℕ) → 0 < r → share a t r ≢ panic
unfolding share
share_returns a t r some_reserve = ground arith

fee_liquidity_returns : (t k l : ℕ) → l < k → fee_liquidity t k l ≢ panic
unfolding fee_liquidity
fee_liquidity_returns t k l grown = ground arith

module _ {L : Type 0} where
  _mint-Returns : (to n : ℕ) → Returns {S = World L} (_mint to n)
  unfolding _mint
  _mint-Returns to n = search return_rules

  _burn-Returns : (from n : ℕ) → Returns {S = World L} (_burn from n)
  unfolding _burn
  _burn-Returns from n = search return_rules

  pub _transfer_liquidity-Returns :
      (from to n : ℕ) → Returns {S = World L} (_transfer_liquidity from to n)
  unfolding _transfer_liquidity
  _transfer_liquidity-Returns from to n = search return_rules depth 20

  mint_growth-Returns : (to k l : ℕ) → l < k → Returns {S = World L} (mint_growth to k l)
  unfolding mint_growth
  mint_growth-Returns to k l grown =
      search (return_rules, Returns-lift, fee_liquidity_returns, _mint-Returns)

module _ {L : Type 0} (h : Host L) (answers : Answers h) where
  -- A read comes back, whatever balance it gives.
  pub balance_of-Returns : (owner : ℕ) (asset : Asset) → Returns (balance_of h owner asset)
  balance_of-Returns owner asset = record {
    at = λ w. record {
      returns = λ e.
          settled_returns (h.fetch_balance w.ledger owner asset)
            (answers.known w.ledger owner asset) e;
    };
  }

  pub transfer_tokens-Returns :
      (from to : ℕ) (s : Asset) (n : ℕ) → Returns (transfer_tokens h from to s n)
  unfolding transfer_tokens
  transfer_tokens-Returns from to s n = search (return_rules, balance_of-Returns)

  pub _update-Returns : (b c r s : ℕ) → Returns (_update h b c r s)
  unfolding _update
  _update-Returns b c r s = search return_rules

  -- The fee is asked for only if the root has grown.
  growth-Returns :
      (to k l : ℕ) → Returns {S = World L} (if ltb l k then mint_growth to k l else pure tt)
  growth-Returns to k l = elim (Bool-cases (ltb l k)) [
    | inl grown ↦ rw grown (mint_growth-Returns to k l (ground arith))
    | inr not_grown ↦ rw not_grown (search return_rules)
  ]

  collect_fee-Returns : (to : Option ℕ) (k r s : ℕ) → Returns (collect_fee h to k r s)
  unfolding collect_fee
  collect_fee-Returns none k r s = search return_rules
  collect_fee-Returns (some to) k r s = search (return_rules, growth-Returns)

  _mint_fee-Returns : (r s : ℕ) → Returns (_mint_fee h r s)
  unfolding _mint_fee
  _mint_fee-Returns r s = search (return_rules, collect_fee-Returns)

  ruleset parts = (
    return_rules, balance_of-Returns, _mint-Returns, _burn-Returns, _transfer_liquidity-Returns,
    transfer_tokens-Returns, _update-Returns, _mint_fee-Returns,
  )

  pub _swap-Returns : (a b to : ℕ) → Returns (_swap h a b to)
  unfolding _swap
  _swap-Returns a b to = search parts depth 20

  new_liquidity-Returns : (t a b r s : ℕ) → 0 < r → 0 < s → Returns (new_liquidity h t a b r s)
  unfolding new_liquidity
  new_liquidity-Returns t a b r s some_0 some_1 = search (parts, Returns-lift, share_returns)

  finish_mint-Returns :
      (to l : ℕ) (on : Bool) (b c r s x y : ℕ) → Returns (finish_mint h to l on b c r s x y)
  unfolding finish_mint
  finish_mint-Returns to l on b c r s x y = search parts depth 20

  finish_burn-Returns :
      (to l : ℕ) (on : Bool) (x y r s : ℕ) (a b : Asset)
      → Returns (finish_burn h to l on x y r s a b)
  unfolding finish_burn
  finish_burn-Returns to l on x y r s a b = search parts depth 20

  pub mint_liquidity-ReturnsAt :
      (to : ℕ) (w : World L)
      → 0 < w.pair.reserve_0
      → 0 < w.pair.reserve_1
      → ReturnsAt (mint_liquidity h to) w
  unfolding mint_liquidity
  mint_liquidity-ReturnsAt to w some_0 some_1 =
      ReturnsAt-seq_gets _ _ w
        (Returns.at (search (parts, new_liquidity-Returns, finish_mint-Returns) depth 20) w)

  pub burn_liquidity-ReturnsAt :
      (to : ℕ) (w : World L)
      → 0 < w.pair.total_supply
      → w.pair.total_supply ≤ max_u128
      → ReturnsAt (burn_liquidity h to) w
  unfolding burn_liquidity
  burn_liquidity-ReturnsAt to w started fits =
      let r : ℕ = w.pair.reserve_0 in
      let s : ℕ = w.pair.reserve_1 in
      let grown = _mint_fee_supply h w r s fits in
      let some_shares : 0 < (_mint_fee h r s w).1.pair.total_supply =
        omega (arith, grown.0, started) in
      let read_0 = balance_of h h.account_id w.pair.asset_0 in
      let read_1 = balance_of h h.account_id w.pair.asset_1 in
      ReturnsAt-seq_gets _ _ w (
        ReturnsAt-seq read_0 _ w ((balance_of-Returns h.account_id w.pair.asset_0).at w) (λ _ _.
          ReturnsAt-seq read_1 _ w ((balance_of-Returns h.account_id w.pair.asset_1).at w) (λ _ _.
            ReturnsAt-seq_gets _ _ w (
              ReturnsAt-seq (_mint_fee h r s) _ w ((_mint_fee-Returns r s).at w) (λ on _.
                ReturnsAt-seq_gets _ _ (_mint_fee h r s w).1 (
                  Returns.at
                    (search (parts, Returns-lift, share_returns, finish_burn-Returns) depth 20)
                    (_mint_fee h r s w).1))))))
