-- ===== src/Pallet/Tests.antt =====
-- Runs of the pallet's functions.
mod Benches
mod Calls
mod Trades
use pendulum_amm.Base.{◌+◌, ◌-◌, ◌%◌, ◌^◌, ◌≡◌, refl, true, false, arith, ltb}
use pendulum_amm.Contract.Pricing
use pendulum_amm.Pallet.Pricing.{_get_amount_out, get_amount_in, quote}
use pendulum_amm.Pallet.Pricing.Agreement.{recovered, prices_agree}
use pendulum_amm.Pallet.Overflowing.{overflowing_add, overflowing_sub}
use pendulum_amm.Pallet.Overflowing.Wrapping.{overflowing_wraps}

-- `overflow_test` of pallet/src/helper.rs
overflow_test :
    (overflowing_sub (2 ^ 32 - 1) 100 (2 ^ 32 - 1) ≡ (101, true))
    × (overflowing_sub 255 0 1 ≡ (255, true))
    × (overflowing_add (2 ^ 32 - 1) (2 ^ 32 - 1) 200 ≡ (199, true))
    × (overflowing_add (2 ^ 32 - 1) 5 2 ≡ (7, false))
unfolding overflowing_add overflowing_sub
overflow_test = (refl, refl, refl, refl)

overflowing_wraps_example :
    (overflowing_add 255 250 10 ≡ ((250 + 10) % (255 + 1), ltb 255 (250 + 10)))
    × (overflowing_sub 255 250 10 ≡ ((250 + (255 + 1) - 10) % (255 + 1), ltb 250 10))
overflowing_wraps_example = overflowing_wraps 255 250 10 (omega arith) (omega arith)

prices_agree_example :
    (get_amount_in 10000 10000 10000 ≡ recovered (Pricing.get_amount_in 10000 10000 10000))
    × (_get_amount_out 10000 10000 10000 ≡ recovered (Pricing.get_amount_out 10000 10000 10000))
    × (quote 10000 10000 10000 ≡ recovered (Pricing.quote 10000 10000 10000))
prices_agree_example = prices_agree 10000 10000 10000
