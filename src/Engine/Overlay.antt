-- ===== src/Engine/Overlay.antt =====
-- engine/overlay.ts: `OverlayComposer`, which applies overlays to a strategy's decision in order. A
-- decision is its fields. The schema registry and the source of the overlays' decisions are
-- parameters; the source may keep a state, which tells whom it was asked about. Names that every
-- object inherits are not looked up among the kinds of a decision.
pub mod Laws
pub mod Ends
pub mod Tests
use backtester.Prelude.{
  ℕ, String, List, [], ◌∷◌, ◌++◌, Option, none, some, Bool, true, false, if◌then◌else◌, str_eq,
}
use backtester.Json.{Json, null, bool, int, num, str, arr, obj}
use backtester.Jobs.Row.{Ref}
use backtester.OrderedMap.{OrderedMap, get, set}

abbrev pub StrategyDecision : Type 0
StrategyDecision = OrderedMap Json

pub data OverlayDecision : Type 0 where
  pass : OverlayDecision
  annotate : (tags notes : Json) → OverlayDecision
  patch : OrderedMap Json → OverlayDecision
  veto : String → OverlayDecision

pub record OverlayEffect : Type 0 where
  pub overlay_ref : Ref
  pub effect : String
  pub detail : OrderedMap Json

pub data ValidationCode : Type 0 where
  decision_schema_invalid overlay_composition_invalid : ValidationCode

pub record OverlayComposition : Type 0 where
  pub final_decision : Option StrategyDecision
  pub effects : List OverlayEffect
  pub error : Option ValidationCode

-- `STRATEGY_DECISION_DEFS`.
abbrev pub strategy_decision_defs : OrderedMap String
strategy_decision_defs =
    ("enter", "EnterDecision")
    ∷ ("exit", "ExitDecision")
    ∷ ("add_to_position", "AddToPositionDecision")
    ∷ ("update_protection", "UpdateProtectionDecision")
    ∷ ("annotate", "AnnotateDecision")
    ∷ ("idle", "IdleDecision")
    ∷ []

-- `{ ...a, ...b }`.
unfoldable pub spread : OrderedMap Json → OrderedMap Json → OrderedMap Json
spread a [] = a
spread a ((k, v) ∷ b) = spread (set k v a) b

abbrev branch_of_kind : Option Json → Option String
branch_of_kind none = none
branch_of_kind (some (str kind)) = get kind strategy_decision_defs
branch_of_kind (some _) = none

abbrev pub branch_of : StrategyDecision → Option String
branch_of d = branch_of_kind (get "kind" d)

-- How the loop goes on after one overlay.
pub data Step : Type 0 where
  go_on : StrategyDecision → List OverlayEffect → Step
  stop : OverlayComposition → Step

abbrev failure : List OverlayEffect → ValidationCode → Step
failure effects code = stop (record { final_decision = none; effects = effects; error = some code })

-- `validate branch decision`: the decision has no error against the schema of the branch.
module _ (validate : String → StrategyDecision → Bool) where
  abbrev apply_patched : StrategyDecision → List OverlayEffect → Option String → Step
  apply_patched patched effects none = failure effects decision_schema_invalid
  apply_patched patched effects (some branch) =
      if validate branch patched
      then go_on patched effects
      else failure effects overlay_composition_invalid

  unfoldable pub apply_decision :
      StrategyDecision → List OverlayEffect → Ref → Option OverlayDecision → Step
  unfolding spread
  apply_decision acc effects ref none = go_on acc effects
  apply_decision acc effects ref (some pass) =
      go_on acc (effects ++ record { overlay_ref = ref; effect = "pass"; detail = [] } ∷ [])
  apply_decision acc effects ref (some (annotate tags notes)) = go_on acc (
      effects
      ++ record {
        overlay_ref = ref;
        effect = "annotate";
        detail = ("tags", tags) ∷ ("notes", notes) ∷ [];
      }
        ∷ [])
  apply_decision acc effects ref (some (patch fields)) =
      let patched = spread acc fields in
      apply_patched patched
        (effects ++ record { overlay_ref = ref; effect = "patch"; detail = fields } ∷ [])
        (branch_of patched)
  apply_decision acc effects ref (some (veto reason)) = stop (record {
    final_decision = none;
    effects =
        effects
        ++ record { overlay_ref = ref; effect = "veto"; detail = ("reasonCode", str reason) ∷ [] }
          ∷ [];
    error = none;
  })

  module _ {S : Type 0} (get_decision : S → Ref → S × Option OverlayDecision) where
    abbrev pub Composed : Type 0
    Composed = S × OverlayComposition

    unfoldable pub compose_from : S → StrategyDecision → List OverlayEffect → List Ref → Composed
    unfolding apply_decision
    compose_from s acc effects [] =
        (s, record { final_decision = some acc; effects = effects; error = none })
    compose_from s acc effects (overlay ∷ overlays) =
        let (s', decision) = get_decision s overlay in
        elim (apply_decision acc effects overlay decision) [
          | go_on acc' effects' ↦ compose_from s' acc' effects' overlays
          | stop composition ↦ (s', composition)
        ]

    unfoldable pub compose : S → StrategyDecision → List Ref → Composed
    unfolding compose_from
    compose s base overlays = compose_from s base [] overlays
