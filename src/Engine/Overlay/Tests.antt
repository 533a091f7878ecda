-- ===== src/Engine/Overlay/Tests.antt =====
-- The theorems on overlays at concrete inputs: a patch, then a veto.
use backtester.Prelude.{
  ℕ, ◌+◌, refl, String, [], ◌∷◌, ◌++◌, Option, none, some, Bool, true, suc, zero,
}
use backtester.Json.{str}
use backtester.Jobs.Row.{Ref}
use backtester.OrderedMap.{get, set}
use backtester.Engine.Overlay.{
  StrategyDecision, OverlayDecision, patch, veto, compose_from, compose, spread, apply_decision,
}
use backtester.Engine.Overlay.Laws.{IsChecked, compose-IsChecked}
use backtester.Engine.Overlay.Ends.{EndsAt, vetoed, compose_blocked}

abbrev idle : StrategyDecision
idle = ("kind", str "idle") ∷ []

abbrev guard : Ref
guard = record { id = "guard"; version = "1" }

abbrev cooldown : Ref
cooldown = record { id = "cooldown"; version = "1" }

abbrev accepts : String → StrategyDecision → Bool
accepts branch d = true

-- The first that is asked patches the decision into an exit, the others veto; the state counts.
abbrev answers : ℕ → Ref → ℕ × Option OverlayDecision
answers zero ref = (1, some (patch (("kind", str "exit") ∷ [])))
answers (suc n) ref = (n + 2, some (veto "cooldown"))

compose_blocked_example :
    EndsAt accepts answers 2
      (record { overlay_ref = guard; effect = "patch"; detail = ("kind", str "exit") ∷ [] } ∷ [])
      cooldown
      none
      (compose accepts answers 0 idle ((guard ∷ []) ++ cooldown ∷ guard ∷ []))
unfolding compose compose_from apply_decision spread get set
compose_blocked_example =
    compose_blocked accepts answers 0 idle (guard ∷ []) cooldown (guard ∷ [])
      (("kind", str "exit") ∷ []) (veto "cooldown") none refl refl (vetoed "cooldown")

compose-IsChecked_example : IsChecked accepts answers idle (("kind", str "exit") ∷ [])
unfolding compose compose_from apply_decision spread get set
compose-IsChecked_example =
    compose-IsChecked accepts answers 0 idle (guard ∷ []) (("kind", str "exit") ∷ []) refl
