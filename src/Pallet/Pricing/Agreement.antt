-- ===== src/Pallet/Pricing/Agreement.antt =====
-- The pallet's price functions against those of the contract.
use pendulum_amm.Base.{ℕ, ◌≡◌, arith}
use pendulum_amm.Base.Action.{Outcome, ok, err, panic}
use pendulum_amm.Contract.State
use pendulum_amm.Contract.Pricing
use pendulum_amm.Pallet.State.{
  DispatchError, amm, other, insufficient_input_amount, insufficient_output_amount,
  insufficient_liquidity,
}
use pendulum_amm.Pallet.Pricing.{_get_amount_out, get_amount_in, quote}

-- The pallet's name of each error that the price functions of the contract raise.
abbrev pub pallet_error : State.Error → DispatchError
pallet_error State.Error.insufficient_input_amount = amm insufficient_input_amount
pallet_error State.Error.insufficient_output_amount = amm insufficient_output_amount
pallet_error State.Error.insufficient_liquidity = amm insufficient_liquidity
pallet_error _ = other

-- What the pallet makes of a result of the contract: the same amount or error, and 0 where the
-- contract panics.
abbrev pub recovered : Outcome State.Error ℕ → Outcome DispatchError ℕ
recovered (ok a) = ok a
recovered (err e) = err (pallet_error e)
recovered panic = ok 0

-- On all inputs the pallet's `get_amount_in` is the contract's, with 0 in place of a panic.
get_amount_in_agrees :
    (amount_out reserve_in reserve_out : ℕ)
    → get_amount_in amount_out reserve_in reserve_out
      ≡ recovered (Pricing.get_amount_in amount_out reserve_in reserve_out)
unfolding get_amount_in Pricing.get_amount_in
get_amount_in_agrees o r s = ground arith

-- On all inputs the pallet's `_get_amount_out` is the contract's, with 0 in place of a panic.
get_amount_out_agrees :
    (amount_in reserve_in reserve_out : ℕ)
    → _get_amount_out amount_in reserve_in reserve_out
      ≡ recovered (Pricing.get_amount_out amount_in reserve_in reserve_out)
unfolding _get_amount_out Pricing.get_amount_out
get_amount_out_agrees a r s = ground arith

-- On all inputs the pallet's `quote` is the contract's.
quote_agrees :
    (amount_a reserve_a reserve_b : ℕ)
    → quote amount_a reserve_a reserve_b ≡ recovered (Pricing.quote amount_a reserve_a reserve_b)
unfolding quote Pricing.quote
quote_agrees a r s = ground arith

-- On all inputs the three price functions of the pallet are those of the contract, with 0 in place
-- of a panic.
pub prices_agree :
    (a r s : ℕ)
    → (get_amount_in a r s ≡ recovered (Pricing.get_amount_in a r s))
      × (_get_amount_out a r s ≡ recovered (Pricing.get_amount_out a r s))
      × (quote a r s ≡ recovered (Pricing.quote a r s))
prices_agree a r s = (get_amount_in_agrees a r s, get_amount_out_agrees a r s, quote_agrees a r s)
