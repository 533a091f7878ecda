-- ===== src/Actor/Risk.antt =====
-- engine/actor/risk.ts: the verdict of a risk profile on an order, and the text of a refusal.
pub mod Refusal
pub mod Laws
use Prim.Native.Char.{code}
use Prim.Native.String
use mathlib.Core.Option as Option
use backtester.Prelude.{
  ℕ, zero, suc, String, List, [], ◌∷◌, Option, none, some, Bool, true, false, not, any, ltb, leb,
  ◌==◌, ◌&&◌, str_eq, if◌then◌else◌,
}
use backtester.Prelude.Int.{ℤ, pos, negsuc, ltb_ℤ, ◌+ℤ◌}
use backtester.Actor.Commands.{Number, exceeds, OrderSide, buy, sell, ActorPlaceCommand}

-- The engine's ledger, as far as it is read.
pub record Ledger : Type 0 where
  pub qty : ℤ
  pub realized_pnl : ℤ

-- `maxPositionNotionalPct`: whether it is finite and positive, and its product with an equity.
pub record ExposureLimits : Type 0 where
  pub is_valid : Bool
  pub share_of : ℤ → ℤ

-- A count that should be a whole number from zero on.
pub data Count : Type 0 where
  whole : ℕ → Count
  unusable : Count

pub record ActorRiskProfile : Type 0 where
  pub id : String
  pub version : String
  pub max_concurrent_positions : Option Count
  pub exposure_limits : Option ExposureLimits
  pub allowed_sides : Option (List String)

pub data ActorOrderIntent : Type 0 where
  opens adds closes : ActorOrderIntent

unfoldable pub order_intent_of : ℤ → OrderSide → ActorOrderIntent
order_intent_of (pos zero) side = opens
order_intent_of (pos (suc n)) buy = adds
order_intent_of (pos (suc n)) sell = closes
order_intent_of (negsuc n) buy = closes
order_intent_of (negsuc n) sell = adds

abbrev pub resulting_position_side : OrderSide → String
resulting_position_side buy = "long"
resulting_position_side sell = "short"

abbrev pub is_flat : ℤ → Bool
is_flat (pos zero) = true
is_flat _ = false

abbrev pub open_positions_of : ℤ → ℕ
open_positions_of qty = if is_flat qty then 0 else 1

-- `none` stands for the error on an open position.
unfoldable pub flat_equity_of : Ledger → ℤ → Option ℤ
flat_equity_of l initial_equity =
    if is_flat l.qty then some (initial_equity +ℤ l.realized_pnl) else none

pub data RiskAction : Type 0 where
  clamp_action reject_action : RiskAction

pub record RiskDecision : Type 0 where
  pub bar_index : ℕ
  pub action : RiskAction
  pub reason : String
  pub clamped : Option (Number × ℤ)

-- A refusal carries its machine code; its text is `format_risk_refusal` of the code.
pub data ActorRiskVerdict : Type 0 where
  accept : ActorRiskVerdict
  clamp : ℤ → RiskDecision → ActorRiskVerdict
  reject : String → RiskDecision → ActorRiskVerdict

-- Texts by their characters.
abbrev pub append : String → String → String
append String.[] t = t
append (String.◌∷◌ c s) t = String.◌∷◌ c (append s t)

abbrev pub strip_prefix : String → String → Option String
strip_prefix String.[] s = some s
strip_prefix (String.◌∷◌ c p) String.[] = none
strip_prefix (String.◌∷◌ c p) (String.◌∷◌ d s) = if code c == code d then strip_prefix p s else none

-- The text before the first colon.
abbrev pub before_colon : String → Option String
before_colon String.[] = none
before_colon (String.◌∷◌ c s) =
    if code c == b':' then some "" else Option.map (λ t. String.◌∷◌ c t) (before_colon s)

abbrev pub risk_refusal_prefix : String
risk_refusal_prefix = "risk:"

unfoldable pub format_risk_refusal : String → String → String
format_risk_refusal refusal_code human =
    append risk_refusal_prefix (append refusal_code (append ": " human))

abbrev pub code_in : Option String → Option String
code_in none = none
code_in (some refusal_code) = if str_eq refusal_code "" then none else some refusal_code

abbrev pub code_of_rest : Option String → Option String
code_of_rest none = none
code_of_rest (some rest) = code_in (before_colon rest)

unfoldable pub parse_risk_refusal : String → Option String
parse_risk_refusal reason = code_of_rest (strip_prefix risk_refusal_prefix reason)

module _ (bar_index : ℕ) (l : Ledger) (profile : ActorRiskProfile) (initial_equity : ℤ) where
  abbrev pub rejected_for : String → ActorRiskVerdict
  rejected_for reason =
      reject reason
        (record { bar_index = bar_index; action = reject_action; reason = reason; clamped = none })

  -- `none` stands for the error on a limit that cannot be compared, or on an open position; the
  -- inner `none` says that the profile has no ceiling.
  abbrev pub ceiling_under : Option ExposureLimits → Option ℤ → Option (Option ℤ)
  ceiling_under none equity = some none
  ceiling_under (some limits) equity =
      if limits.is_valid then Option.map (λ e. some (limits.share_of e)) equity else none

  unfoldable pub exposure_ceiling_of : Option (Option ℤ)
  unfolding flat_equity_of
  exposure_ceiling_of = ceiling_under profile.exposure_limits (flat_equity_of l initial_equity)

  abbrev pub sized : ActorPlaceCommand → Option (Option ℤ) → Option ActorRiskVerdict
  sized command none = none
  sized command (some none) = some accept
  sized command (some (some ceiling)) =
      if not (ltb_ℤ (pos 0) ceiling)
      then some (rejected_for "exposure_ceiling_exhausted")
      else if exceeds command.qty_usd ceiling
      then some (
          clamp ceiling (record {
            bar_index = bar_index;
            action = clamp_action;
            reason = "notional_clamped";
            clamped = some (command.qty_usd, ceiling);
          }))
      else some accept

  abbrev pub counted : ActorPlaceCommand → Option Count → Option ActorRiskVerdict
  counted command none = sized command exposure_ceiling_of
  counted command (some unusable) = none
  counted command (some (whole most)) =
      if leb most (open_positions_of l.qty)
      then some (rejected_for "max_concurrent_positions")
      else sized command exposure_ceiling_of

  abbrev pub includes : List String → String → Bool
  includes sides side = any (λ s. str_eq s side) sides

  abbrev pub side_allowed : OrderSide → Option (List String) → Bool
  side_allowed side none = true
  side_allowed side (some sides) = includes sides (resulting_position_side side)

  abbrev pub opened : ActorPlaceCommand → Option ActorRiskVerdict
  opened command =
      if not (side_allowed command.side profile.allowed_sides)
      then some (rejected_for "side_not_allowed")
      else counted command profile.max_concurrent_positions

  abbrev pub judged : ActorPlaceCommand → ActorOrderIntent → Option ActorRiskVerdict
  judged command closes =
      if command.reduce_only
      then some accept
      else some (rejected_for "opposite_side_requires_reduce_only")
  judged command adds = some (rejected_for "add_not_permitted")
  judged command opens = opened command

  -- `none` stands for an error that is thrown.
  unfoldable pub evaluate_actor_place : ActorPlaceCommand → Option ActorRiskVerdict
  unfolding order_intent_of exposure_ceiling_of
  evaluate_actor_place command = judged command (order_intent_of l.qty command.side)
