-- ===== src/Engine/Overlay/Ends.antt =====
-- How an overlay ends a composition.
use backtester.Prelude.{
  String, List, [], ◌∷◌, ◌++◌, Option, none, some, Bool, false, ◌≡◌, refl, ap, sym, subst, ◌∙◌,
}
use backtester.Jobs.Row.{Ref}
use backtester.Json.{Json}
use backtester.OrderedMap.{OrderedMap}
use backtester.Engine.Overlay.{
  StrategyDecision, OverlayDecision, OverlayEffect, OverlayComposition, Step, go_on, stop,
  ValidationCode, decision_schema_invalid, overlay_composition_invalid, branch_of, apply_decision,
  compose_from, compose, Composed, patch, veto, spread,
}
use backtester.Engine.Overlay.Laws.{resume, compose_from-append}

module _ (validate : String → StrategyDecision → Bool) {S : Type 0}
    (get_decision : S → Ref → S × Option OverlayDecision) where
  -- A decision of an overlay that ends the composition on the decision so far, with the error: a veto,
  -- a patch into no known kind of decision, or one that the schema of its kind refuses.
  pub data Blocks (d : StrategyDecision) : OverlayDecision → Option ValidationCode → Type 0 where
    vetoed : (reason : String) → Blocks d (veto reason) none
    unknown_kind :
        (fields : OrderedMap Json)
        → branch_of (spread d fields) ≡ none
        → Blocks d (patch fields) (some decision_schema_invalid)
    refused :
        (fields : OrderedMap Json) (branch : String)
        → branch_of (spread d fields) ≡ some branch
        → validate branch (spread d fields) ≡ false
        → Blocks d (patch fields) (some overlay_composition_invalid)

  blocked_step :
      (d : StrategyDecision) (effects : List OverlayEffect) (ref : Ref) (decision : OverlayDecision)
      (code : Option ValidationCode)
      → Blocks d decision code
      → (e : OverlayEffect) × (e.overlay_ref ≡ ref)
        × (apply_decision validate d effects ref (some decision)
            ≡ stop (record { final_decision = none; effects = effects ++ e ∷ []; error = code }))
  unfolding apply_decision
  blocked_step d effects ref _ _ (vetoed reason) = (_, refl, refl)
  blocked_step d effects ref _ _ (unknown_kind fields b) =
      (record { overlay_ref = ref; effect = "patch"; detail = fields }, refl, rw b refl)
  blocked_step d effects ref _ _ (refused fields branch b v) =
      (record { overlay_ref = ref; effect = "patch"; detail = fields }, refl, rw (b, v) refl)

  -- What a composition is that an overlay ended: the source stays where its answer left it, there is
  -- no decision, and the overlay's effect is the last.
  pub record EndsAt (s : S) (effects : List OverlayEffect) (ref : Ref)
      (code : Option ValidationCode) (r : Composed validate get_decision) : Type 0 where
    pub nobody_asked : r.0 ≡ s
    pub no_decision : r.1.final_decision ≡ none
    pub reported : r.1.error ≡ code
    pub last : OverlayEffect
    pub of_overlay : last.overlay_ref ≡ ref
    pub effects_kept : r.1.effects ≡ effects ++ last ∷ []

  EndsAt-from :
      (s : S) (d : StrategyDecision) (effects : List OverlayEffect) (ref : Ref) (ys : List Ref)
      (decision : OverlayDecision) (code : Option ValidationCode)
      → (get_decision s ref).1 ≡ some decision
      → Blocks d decision code
      → EndsAt
          (get_decision s ref).0
          effects
          ref
          code
          (compose_from validate get_decision s d effects (ref ∷ ys))
  unfolding compose_from
  EndsAt-from s d effects ref ys decision code answer blocks =
      let (e, mine, stops) = blocked_step d effects ref decision code blocks in
      let s' = (get_decision s ref).0 in
      let stopped_here =
        ap (λ (o : Option OverlayDecision). apply_decision validate d effects ref o) answer
        ∙ stops in
      subst
        (λ (o : Step). EndsAt s' effects ref code (elim o as (λ _. Composed validate get_decision) [
          | go_on acc' effects' ↦ compose_from validate get_decision s' acc' effects' ys
          | stop c ↦ (s', c)
        ]))
        (sym stopped_here)
        (record {
          nobody_asked = refl;
          no_decision = refl;
          reported = refl;
          last = e;
          of_overlay = mine;
          effects_kept = refl;
        })

  resume_left :
      (s : S) (c : OverlayComposition) (d : StrategyDecision) (ys : List Ref)
      → c.final_decision ≡ some d
      → resume validate get_decision (s, c) ys ≡ compose_from validate get_decision s d c.effects ys
  resume_left s c d ys left = rw (left, resume) refl

  -- If overlays have left a decision, and the next one vetoes it or patches it into one of no known
  -- kind or that the schema refuses, then the composition ends there, whatever overlays follow: none
  -- of them is asked, there is no decision, the error is that of the patch and none for a veto, and
  -- the effects are those so far and one of that overlay.
  pub compose_blocked :
      (s : S) (base : StrategyDecision) (xs : List Ref) (x : Ref) (ys : List Ref)
      (d : StrategyDecision) (decision : OverlayDecision) (code : Option ValidationCode)
      → let (s', c) = compose validate get_decision s base xs in
        c.final_decision ≡ some d
        → (get_decision s' x).1 ≡ some decision
        → Blocks d decision code
        → EndsAt
            (get_decision s' x).0
            c.effects
            x
            code
            (compose validate get_decision s base (xs ++ x ∷ ys))
  unfolding compose
  compose_blocked s base xs x ys d decision code left answer blocks =
      let (s', c) = compose_from validate get_decision s base [] xs in
      let whole = compose_from-append validate get_decision s base [] xs (x ∷ ys) in
      subst (EndsAt (get_decision s' x).0 c.effects x code)
        (sym (whole ∙ resume_left s' c d (x ∷ ys) left))
        (EndsAt-from s' d c.effects x ys decision code answer blocks)
