-- ===== src/Actor/Risk/Laws.antt =====
-- What a verdict that lets an order pass says of its size.
use backtester.Prelude.{
  ℕ, zero, suc, String, Option, none, some, Bool, true, false, not, ◌≡◌, refl, sym, subst, arith,
  inl, inr, ◌⊎◌, if◌then◌else◌, leb,
}
use backtester.Prelude.Int.{ℤ, pos, negsuc, ltb_ℤ}
use backtester.Actor.Commands.{Number, finite, is_positive, exceeds, OrderSide, ActorPlaceCommand}
use backtester.Actor.Risk.{
  Ledger, ActorRiskProfile, Count, whole, unusable, RiskDecision, ActorRiskVerdict, accept, clamp,
  reject, is_flat, open_positions_of, evaluate_actor_place, judged, opened, counted, sized,
  order_intent_of, ActorOrderIntent, opens, adds, closes, exposure_ceiling_of,
}

-- The size that an order is booked with under a verdict.
abbrev pub size_under : ActorPlaceCommand → ActorRiskVerdict → Number
size_under c accept = c.qty_usd
size_under c (clamp q d) = finite q
size_under c (reject s d) = c.qty_usd

abbrev pub lets_pass : ActorRiskVerdict → Bool
lets_pass accept = true
lets_pass (clamp q d) = true
lets_pass (reject s d) = false

-- What a passing verdict owes to a ceiling.
pub record IsWithin (ceiling : ℤ) (c : ActorPlaceCommand) (v : ActorRiskVerdict) : Type 0 where
  pub ceiling_positive : ltb_ℤ (pos 0) ceiling ≡ true
  pub within : exceeds (size_under c v) ceiling ≡ false

ltb_ℤ_irrefl : (q : ℤ) → ltb_ℤ q q ≡ false
ltb_ℤ_irrefl q = ground arith

some-inj : {v w : ActorRiskVerdict} → some v ≡ some w → v ≡ w
some-inj h = cc

not-false : (b : Bool) → not b ≡ false → b ≡ true
not-false true h = refl
not-false false h = absurd (cc)

-- A rejection does not pass, so the next check has decided.
past :
    (b : Bool) (s : String) (d : RiskDecision) (next : Option ActorRiskVerdict)
    (v : ActorRiskVerdict)
    → (if b then some (reject s d) else next) ≡ some v
    → lets_pass v ≡ true
    → (b ≡ false) × (next ≡ some v)
past true s d next v h passes =
    absurd (cc (subst (λ w. lets_pass w ≡ true) (sym (some-inj h)) passes))
past false s d next v h passes = (refl, h)

reduced :
    (b : Bool) (s : String) (d : RiskDecision) (v : ActorRiskVerdict)
    → (if b then some accept else some (reject s d)) ≡ some v
    → lets_pass v ≡ true
    → v ≡ accept
reduced true s d v h passes = sym (some-inj h)
reduced false s d v h passes =
    absurd (cc (subst (λ w. lets_pass w ≡ true) (sym (some-inj h)) passes))

flat-opens : (q : ℤ) (side : OrderSide) → is_flat q ≡ true → order_intent_of q side ≡ opens
unfolding order_intent_of
flat-opens (pos zero) side h = refl
flat-opens (pos (suc n)) side h = absurd (cc)
flat-opens (negsuc n) side h = absurd (cc)

-- The two verdicts that a positive ceiling leaves.
fitted-IsWithin :
    (c : ActorPlaceCommand) (q : ℤ) (d : RiskDecision) (v : ActorRiskVerdict) (b : Bool)
    → exceeds c.qty_usd q ≡ b
    → (if b then some (clamp q d) else some accept) ≡ some v
    → exceeds (size_under c v) q ≡ false
fitted-IsWithin c q d v true over h =
    subst (λ w. exceeds (size_under c w) q ≡ false) (some-inj h) (ltb_ℤ_irrefl q)
fitted-IsWithin c q d v false over h =
    subst (λ w. exceeds (size_under c w) q ≡ false) (some-inj h) over

fitted-positive :
    (c : ActorPlaceCommand) (q : ℤ) (d : RiskDecision) (v : ActorRiskVerdict) (b : Bool)
    → ltb_ℤ (pos 0) q ≡ true
    → is_positive c.qty_usd ≡ true
    → (if b then some (clamp q d) else some accept) ≡ some v
    → is_positive (size_under c v) ≡ true
fitted-positive c q d v true above p h =
    subst (λ w. is_positive (size_under c w) ≡ true) (some-inj h) above
fitted-positive c q d v false above p h =
    subst (λ w. is_positive (size_under c w) ≡ true) (some-inj h) p

module _ (bar_index : ℕ) (l : Ledger) (profile : ActorRiskProfile) (initial_equity : ℤ)
    (c : ActorPlaceCommand) (v : ActorRiskVerdict) (passes : lets_pass v ≡ true) where
  sized-IsWithin :
      (ceiling : ℤ)
      → sized bar_index l profile initial_equity c (some (some ceiling)) ≡ some v
      → IsWithin ceiling c v
  sized-IsWithin ceiling h =
      let fits = past (not (ltb_ℤ (pos 0) ceiling)) _ _ _ v h passes in
      record {
        ceiling_positive = not-false _ fits.0;
        within = fitted-IsWithin c ceiling _ v _ refl fits.1;
      }

  sized-positive :
      (o : Option (Option ℤ))
      → sized bar_index l profile initial_equity c o ≡ some v
      → is_positive c.qty_usd ≡ true
      → is_positive (size_under c v) ≡ true
  sized-positive none h p = absurd (cc)
  sized-positive (some none) h p = subst (λ w. is_positive (size_under c w) ≡ true) (some-inj h) p
  sized-positive (some (some ceiling)) h p =
      let fits = past (not (ltb_ℤ (pos 0) ceiling)) _ _ _ v h passes in
      fitted-positive c ceiling _ v _ (not-false _ fits.0) p fits.1

  counted-sized :
      (o : Option Count)
      → counted bar_index l profile initial_equity c o ≡ some v
      → sized bar_index l profile initial_equity c
          (exposure_ceiling_of bar_index l profile initial_equity)
        ≡ some v
  counted-sized none h = h
  counted-sized (some unusable) h = absurd (cc)
  counted-sized (some (whole most)) h =
      (past (leb most (open_positions_of l.qty)) _ _ _ v h passes).1

  opened-sized :
      opened bar_index l profile initial_equity c ≡ some v
      → sized bar_index l profile initial_equity c
          (exposure_ceiling_of bar_index l profile initial_equity)
        ≡ some v
  opened-sized h = counted-sized _ (past _ _ _ _ v h passes).1

  -- A position is only added to or turned by an order that is accepted as it is.
  judged-sized :
      (intent : ActorOrderIntent)
      → judged bar_index l profile initial_equity c intent ≡ some v
      → (v ≡ accept)
        ⊎ (sized bar_index l profile initial_equity c
              (exposure_ceiling_of bar_index l profile initial_equity)
            ≡ some v)
  judged-sized opens h = inr (opened-sized h)
  judged-sized adds h = absurd (cc (subst (λ w. lets_pass w ≡ true) (sym (some-inj h)) passes))
  judged-sized closes h = inl (reduced c.reduce_only _ _ v h passes)

  pub evaluate_actor_place-positive :
      evaluate_actor_place bar_index l profile initial_equity c ≡ some v
      → is_positive c.qty_usd ≡ true
      → is_positive (size_under c v) ≡ true
  unfolding evaluate_actor_place
  evaluate_actor_place-positive h p = elim (judged-sized _ h) [
    | inl e ↦ subst (λ w. is_positive (size_under c w) ≡ true) (sym e) p
    | inr e ↦ sized-positive (exposure_ceiling_of bar_index l profile initial_equity) e p
  ]

  pub evaluate_actor_place-IsWithin :
      (ceiling : ℤ)
      → evaluate_actor_place bar_index l profile initial_equity c ≡ some v
      → is_flat l.qty ≡ true
      → exposure_ceiling_of bar_index l profile initial_equity ≡ some (some ceiling)
      → IsWithin ceiling c v
  unfolding evaluate_actor_place
  evaluate_actor_place-IsWithin ceiling h flat under = sized-IsWithin ceiling (
      subst (λ o. sized bar_index l profile initial_equity c o ≡ some v) under
        (opened-sized (
          subst (λ i. judged bar_index l profile initial_equity c i ≡ some v)
            (flat-opens l.qty c.side flat) h)))
