-- ===== src/Contract/Authority.antt =====
-- Who may change the contract's settings: the assets, the setter and the receiver of the fee.
use pendulum_amm.Base.{ℕ, ◌≡◌, ◌≢◌, refl, ap, ◌∙◌, Option, none, some, arith, ◌==◌, if◌then◌else◌}
use pendulum_amm.Base.Action.{◌>>=◌}
use pendulum_amm.Base.Action.Stable.{Stable, stable_rules, Stable-modify}
use pendulum_amm.Contract.State.{Asset, Pair, Host, World}
use pendulum_amm.Contract.Token.{_mint, _burn, _transfer_liquidity}
use pendulum_amm.Contract.Bank.{transfer_tokens}
use pendulum_amm.Contract.Reserves.{_update, mint_growth, collect_fee, _mint_fee}
use pendulum_amm.Contract.Liquidity.{
  new_liquidity, finish_mint, mint_liquidity, finish_burn, burn_liquidity,
}
use pendulum_amm.Contract.Exchange.{_swap}
use pendulum_amm.Contract.Calls.{Message, execute, Reach, here, call, outside}
use pendulum_amm.Contract.Messages.{
  set_fee_to, send_surplus, skim, sync, deposit_asset_1, deposit_asset_2, withdraw,
  swap_asset_1_for_asset_2, swap_asset_2_for_asset_1,
}

-- The setter and the two assets.
abbrev pub founding : Pair → ℕ × Asset × Asset
founding p = (p.fee_to_setter, p.asset_0, p.asset_1)

-- Those, after the receiver of the fee.
abbrev pub Settings : Type 0
Settings = Option ℕ × (ℕ × Asset × Asset)

abbrev pub settings : Pair → Settings
settings p = (p.fee_to, founding p)

abbrev permanent : Settings → ℕ × Asset × Asset
permanent (f, d) = d

abbrev pub HasSettings : {L : Type 0} → Settings → World L → Type 0
HasSettings c w = settings w.pair ≡ c

module _ {L : Type 0} {c : Settings} where
  _mint-HasSettings : (to n : ℕ) → Stable {S = World L} (HasSettings c) (_mint to n)
  unfolding _mint
  _mint-HasSettings to n = search (stable_rules, Stable-modify)

  _burn-HasSettings : (from n : ℕ) → Stable {S = World L} (HasSettings c) (_burn from n)
  unfolding _burn
  _burn-HasSettings from n = search (stable_rules, Stable-modify)

  _transfer_liquidity-HasSettings :
      (from to n : ℕ) → Stable {S = World L} (HasSettings c) (_transfer_liquidity from to n)
  unfolding _transfer_liquidity
  _transfer_liquidity-HasSettings from to n = search (stable_rules, Stable-modify) depth 20

  mint_growth-HasSettings : (to k l : ℕ) → Stable {S = World L} (HasSettings c) (mint_growth to k l)
  unfolding mint_growth
  mint_growth-HasSettings to k l = search (stable_rules, _mint-HasSettings)

module _ {L : Type 0} (h : Host L) {c : Settings} where
  transfer_tokens-HasSettings :
      (from to : ℕ) (s : Asset) (n : ℕ) → Stable (HasSettings c) (transfer_tokens h from to s n)
  unfolding transfer_tokens
  transfer_tokens-HasSettings from to s n = search (stable_rules, Stable-modify)

  _update-HasSettings : (b d r s : ℕ) → Stable (HasSettings c) (_update h b d r s)
  unfolding _update
  _update-HasSettings b d r s = search (stable_rules, Stable-modify)

  collect_fee-HasSettings :
      (to : Option ℕ) (k r s : ℕ) → Stable (HasSettings c) (collect_fee h to k r s)
  unfolding collect_fee
  collect_fee-HasSettings none k r s = search (stable_rules, Stable-modify)
  collect_fee-HasSettings (some to) k r s = search (stable_rules, mint_growth-HasSettings)

  _mint_fee-HasSettings : (r s : ℕ) → Stable (HasSettings c) (_mint_fee h r s)
  unfolding _mint_fee
  _mint_fee-HasSettings r s = search (stable_rules, collect_fee-HasSettings)

  ruleset parts = (
    stable_rules, Stable-modify, _mint-HasSettings, _burn-HasSettings,
    _transfer_liquidity-HasSettings, transfer_tokens-HasSettings, _update-HasSettings,
    _mint_fee-HasSettings,
  )

  new_liquidity-HasSettings : (t a b r s : ℕ) → Stable (HasSettings c) (new_liquidity h t a b r s)
  unfolding new_liquidity
  new_liquidity-HasSettings t a b r s = search parts

  mint_liquidity-HasSettings : (to : ℕ) → Stable (HasSettings c) (mint_liquidity h to)
  unfolding mint_liquidity finish_mint
  mint_liquidity-HasSettings to = search (parts, new_liquidity-HasSettings) depth 20

  burn_liquidity-HasSettings : (to : ℕ) → Stable (HasSettings c) (burn_liquidity h to)
  unfolding burn_liquidity finish_burn
  burn_liquidity-HasSettings to = search parts depth 20

  _swap-HasSettings : (a b to : ℕ) → Stable (HasSettings c) (_swap h a b to)
  unfolding _swap
  _swap-HasSettings a b to = search parts depth 20

  ruleset messages =
      (parts, mint_liquidity-HasSettings, burn_liquidity-HasSettings, _swap-HasSettings)

  send_surplus-HasSettings :
      (to : ℕ) (s : Asset) (o : Option ℕ) → Stable (HasSettings c) (send_surplus h to s o)
  unfolding send_surplus
  send_surplus-HasSettings to s none = search parts
  send_surplus-HasSettings to s (some n) = search parts

  -- Every message but `set_fee_to`.
  execute-HasSettings :
      (m : Message) → ((n : ℕ) → m ≢ Message.set_fee_to n) → Stable (HasSettings c) (execute h m)
  unfolding execute skim sync deposit_asset_1 deposit_asset_2 withdraw swap_asset_1_for_asset_2
      swap_asset_2_for_asset_1
  execute-HasSettings (Message.set_fee_to n) other = absurd (other n refl)
  execute-HasSettings (Message.skim to) other = search (messages, send_surplus-HasSettings) depth 20
  execute-HasSettings _ other = search messages depth 20

module _ {L : Type 0} (h : Host L) where
  set_fee_to-settings :
      (n : ℕ) (w : World L)
      → settings (set_fee_to h n w).1.pair
        ≡ ((if h.caller == w.pair.fee_to_setter then some n else w.pair.fee_to), founding w.pair)
  unfolding set_fee_to ◌>>=◌
  set_fee_to-settings n w = ground arith

-- What a message may change of the settings: `set_fee_to` the receiver of the fee, when the caller
-- is the setter; any other message nothing.
abbrev pub permitted : ℕ → Message → Settings → Settings
permitted caller (Message.set_fee_to n) (f, (s, a, b)) =
    (if caller == s then some n else f, (s, a, b))
permitted caller _ c = c

permitted-founding :
    (k : ℕ) (m : Message) (c : Settings) → permanent (permitted k m c) ≡ permanent c
permitted-founding k (Message.set_fee_to n) c = refl
permitted-founding k _ c = refl

-- After every message, with whatever outcome, the settings are the old ones, but for the receiver
-- of the fee that the setter chose by `set_fee_to`.
pub execute-settings :
    {L : Type 0} (h : Host L) (m : Message) (w : World L)
    → settings (execute h m w).1.pair ≡ permitted h.caller m (settings w.pair)
unfolding execute
execute-settings h (Message.set_fee_to n) w = set_fee_to-settings h n w
execute-settings h m w = (execute-HasSettings h m (λ n e. cc)).after refl

-- Whatever calls are made, in whatever order and by whomever, the two assets and the setter stay.
pub Reach-settings : {L : Type 0} {s w : World L} → Reach s w → founding w.pair ≡ founding s.pair
Reach-settings here = refl
Reach-settings (call {w} r h m) =
    ap permanent (execute-settings h m w)
    ∙ permitted-founding h.caller m (settings w.pair)
    ∙ Reach-settings r
Reach-settings (outside r l) = Reach-settings r
