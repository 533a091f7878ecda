-- ===== src/Engine/Overlay/Laws.antt =====
-- The order of composition, its early ends, and what a composed decision has passed.
use backtester.Prelude.{
  String, List, [], ◌∷◌, ◌++◌, Option, none, some, Bool, true, ◌≡◌, ◌⊎◌, refl, inl, inr, Bool-cases,
  sym, subst,
}
use backtester.Jobs.Row.{Ref}
use backtester.Engine.Overlay.{
  StrategyDecision, OverlayDecision, OverlayEffect, OverlayComposition, Step, go_on, stop,
  branch_of, apply_decision, compose_from, compose, Composed, apply_patched, pass, annotate, patch,
  veto, spread,
}

module _ (validate : String → StrategyDecision → Bool) {S : Type 0}
    (get_decision : S → Ref → S × Option OverlayDecision) where
  -- The rest of a composition, if it has a decision so far.
  abbrev pub resume : Composed validate get_decision → List Ref → Composed validate get_decision
  resume (s, c) overlays = elim c.final_decision [
    | none ↦ (s, c)
    | some d ↦ compose_from validate get_decision s d c.effects overlays
  ]

  stopped_patched :
      (patched : StrategyDecision) (effects : List OverlayEffect) (branch : Option String)
      (c : OverlayComposition)
      → apply_patched validate patched effects branch ≡ stop c
      → c.final_decision ≡ none
  stopped_patched patched effects none c h = cc
  stopped_patched patched effects (some branch) c h = elim (Bool-cases (validate branch patched)) [
    | inl valid ↦ absurd (cc (rw (valid, apply_patched) at h))
    | inr broken ↦ cc (rw (broken, apply_patched) at h)
  ]

  -- A step that stops leaves no decision.
  stopped :
      (acc : StrategyDecision) (effects : List OverlayEffect) (ref : Ref)
      (d : Option OverlayDecision) (c : OverlayComposition)
      → apply_decision validate acc effects ref d ≡ stop c
      → c.final_decision ≡ none
  unfolding apply_decision
  stopped acc effects ref none c h = absurd (cc)
  stopped acc effects ref (some pass) c h = absurd (cc)
  stopped acc effects ref (some (annotate _ _)) c h = absurd (cc)
  stopped acc effects ref (some (patch fields)) c h =
      stopped_patched (spread acc fields) _ (branch_of (spread acc fields)) c h
  stopped acc effects ref (some (veto reason)) c h = cc

  resume_stopped :
      (s : S) (c : OverlayComposition) (overlays : List Ref)
      → c.final_decision ≡ none
      → resume (s, c) overlays ≡ (s, c)
  resume_stopped s c overlays h = simp h refl

  -- Overlays are applied in order, and the rest of them only if those before have left a decision.
  pub compose_from-append :
      (s : S) (acc : StrategyDecision) (effects : List OverlayEffect) (xs ys : List Ref)
      → compose_from validate get_decision s acc effects (xs ++ ys)
        ≡ resume (compose_from validate get_decision s acc effects xs) ys
  unfolding compose_from
  compose_from-append s acc effects [] ys = refl
  compose_from-append s acc effects (x ∷ xs) ys =
      let (s', decision) = get_decision s x in
      go (λ t a es. compose_from-append t a es xs ys) s'
        (apply_decision validate acc effects x decision) refl
    where
      go :
          ((t : S) (a : StrategyDecision) (es : List OverlayEffect)
            → compose_from validate get_decision t a es (xs ++ ys)
              ≡ resume (compose_from validate get_decision t a es xs) ys)
          → (s' : S) (o : Step) → apply_decision validate acc effects x (get_decision s x).1 ≡ o
          → elim o [
            | go_on acc' effects' ↦ compose_from validate get_decision s' acc' effects' (xs ++ ys)
            | stop c ↦ (s', c)
          ]
            ≡ resume
                (elim o [
                  | go_on acc' effects' ↦ compose_from validate get_decision s' acc' effects' xs
                  | stop c ↦ (s', c)
                ])
                ys
      go rest s' (go_on acc' effects') e = rest s' acc' effects'
      go rest s' (stop c) e =
          sym (resume_stopped s' c ys (stopped acc effects x (get_decision s x).1 c e))

  -- A decision that stands without a patch, or that has passed the schema of its branch.
  abbrev pub IsChecked : StrategyDecision → StrategyDecision → Type 0
  IsChecked base d =
      (d ≡ base) ⊎ ((branch : String) × (branch_of d ≡ some branch) × (validate branch d ≡ true))

  IsChecked-patched :
      (base patched : StrategyDecision) (effects : List OverlayEffect) (branch : Option String)
      (acc' : StrategyDecision) (effects' : List OverlayEffect)
      → branch_of patched ≡ branch
      → apply_patched validate patched effects branch ≡ go_on acc' effects'
      → IsChecked base acc'
  IsChecked-patched base patched effects none acc' effects' b h = absurd (cc)
  IsChecked-patched base patched effects (some branch) acc' effects' b h =
      elim (Bool-cases (validate branch patched)) [
        | inl valid ↦
            let same : patched ≡ acc' = cc (rw (valid, apply_patched) at h) in
            subst (IsChecked base) same (inr (branch, b, valid))
        | inr broken ↦ absurd (cc (rw (broken, apply_patched) at h))
      ]

  IsChecked-step :
      (base acc : StrategyDecision) (effects : List OverlayEffect) (ref : Ref)
      (d : Option OverlayDecision) (acc' : StrategyDecision) (effects' : List OverlayEffect)
      → IsChecked base acc
      → apply_decision validate acc effects ref d ≡ go_on acc' effects'
      → IsChecked base acc'
  unfolding apply_decision
  IsChecked-step base acc effects ref none acc' effects' c h = subst (IsChecked base) (cc) c
  IsChecked-step base acc effects ref (some pass) acc' effects' c h = subst (IsChecked base) (cc) c
  IsChecked-step base acc effects ref (some (annotate _ _)) acc' effects' c h =
      subst (IsChecked base) (cc) c
  IsChecked-step base acc effects ref (some (patch fields)) acc' effects' c h =
      IsChecked-patched base (spread acc fields) _ (branch_of (spread acc fields)) acc' effects'
        refl h
  IsChecked-step base acc effects ref (some (veto reason)) acc' effects' c h = absurd (cc)

  IsChecked-from :
      (base : StrategyDecision) (s : S) (acc : StrategyDecision) (effects : List OverlayEffect)
      (overlays : List Ref) (d : StrategyDecision)
      → IsChecked base acc
      → (compose_from validate get_decision s acc effects overlays).1.final_decision ≡ some d
      → IsChecked base d
  unfolding compose_from
  IsChecked-from base s acc effects [] d c h = subst (IsChecked base) (cc) c
  IsChecked-from base s acc effects (x ∷ xs) d c h =
      let (s', decision) = get_decision s x in
      go (λ t a es c' h'. IsChecked-from base t a es xs d c' h') s'
        (apply_decision validate acc effects x decision) refl h
    where
      go :
          ((t : S) (a : StrategyDecision) (es : List OverlayEffect)
            → IsChecked base a
            → (compose_from validate get_decision t a es xs).1.final_decision ≡ some d
            → IsChecked base d)
          → (s' : S) (o : Step) → apply_decision validate acc effects x (get_decision s x).1 ≡ o
          → (elim o as (λ _. Composed validate get_decision) [
            | go_on acc' effects' ↦ compose_from validate get_decision s' acc' effects' xs
            | stop e ↦ (s', e)
          ]).1.final_decision
            ≡ some d
          → IsChecked base d
      go rest s' (go_on acc' effects') e h' =
          rest s' acc' effects'
            (IsChecked-step base acc effects x (get_decision s x).1 acc' effects' c e) h'
      go rest s' (stop r) e h' = absurd (cc (stopped acc effects x (get_decision s x).1 r e))

  -- A composed decision is the base decision, or one that the schema of its own kind accepts.
  pub compose-IsChecked :
      (s : S) (base : StrategyDecision) (overlays : List Ref) (d : StrategyDecision)
      → (compose validate get_decision s base overlays).1.final_decision ≡ some d
      → IsChecked base d
  unfolding compose
  compose-IsChecked s base overlays d h = IsChecked-from base s base [] overlays d (inl refl) h
