-- ===== src/Actor/EngineState/Runs.antt =====
-- The book of an actor after any run of accepted commands.
use backtester.Prelude.{
  String, List, [], ◌∷◌, Option, none, some, Bool, true, false, not, ◌≡◌, refl, ◌∙◌, ap, sym, subst,
  ◌++◌, arith, str_eq, ◌||◌, eq_iff, if◌then◌else◌,
}
use backtester.Prelude.Int.{ℤ}
use backtester.Actor.Commands.{
  is_positive, ActorPlaceCommand, ActorCommand, place, cancel, timer_set, timer_cancel, annotate,
}
use backtester.Actor.Risk.{ActorRiskProfile}
use backtester.Actor.EngineState.{
  ActorEngineState, ActorOpenOrder, ScheduledTimer, ok, Host, Applied, apply, with_timers, validate,
  is_resting, is_usable_price, trigger_price_of, without_order,
}
use backtester.Actor.EngineState.Laws.{validate_place_iff, accepted-IsBooked}

-- The ids of the resting orders are distinct, their sizes and prices positive.
pub data IsBook : List ActorOpenOrder → Type 0 where
  nil : IsBook []
  cons :
      (o : ActorOpenOrder) (os : List ActorOpenOrder)
      → is_resting o.client_order_id os ≡ false
      → is_positive o.qty_usd ≡ true
      → is_usable_price (trigger_price_of o.order_type) ≡ true
      → IsBook os
      → IsBook (o ∷ os)

or-false-intro : (a b : Bool) → a ≡ false → b ≡ false → (a || b) ≡ false
or-false-intro true b h k = h
or-false-intro false b h k = k

or-false : (a b : Bool) → (a || b) ≡ false → (a ≡ false) × (b ≡ false)
or-false true b h = absurd (cc)
or-false false b h = (refl, h)

str_eq_sym : (s t : String) → str_eq s t ≡ false → str_eq t s ≡ false
str_eq_sym s t h = ground (arith, eq_iff s t, eq_iff t s)

is_resting-append :
    (id : String) (os : List ActorOpenOrder) (o : ActorOpenOrder)
    → is_resting id os ≡ false
    → str_eq o.client_order_id id ≡ false
    → is_resting id (os ++ (o ∷ [])) ≡ false
is_resting-append id [] o h other = simp other refl
is_resting-append id (p ∷ os) o h other =
    let parts = or-false _ _ h in
    or-false-intro _ _ parts.0 (is_resting-append id os o parts.1 other)

append-IsBook :
    (os : List ActorOpenOrder) (o : ActorOpenOrder)
    → IsBook os
    → is_resting o.client_order_id os ≡ false
    → is_positive o.qty_usd ≡ true
    → is_usable_price (trigger_price_of o.order_type) ≡ true
    → IsBook (os ++ (o ∷ []))
append-IsBook os o nil fresh size price = cons o [] refl size price nil
append-IsBook os o (cons p ps alone p_size p_price rest) fresh size price =
    let parts = or-false _ _ fresh in
    cons p (ps ++ (o ∷ []))
      (is_resting-append p.client_order_id ps o alone
        (str_eq_sym p.client_order_id o.client_order_id parts.0))
      p_size p_price (append-IsBook ps o rest parts.1 size price)

is_resting-without_order :
    (id : String) (x : String) (os : List ActorOpenOrder)
    → is_resting id os ≡ false
    → is_resting id (without_order x os) ≡ false
is_resting-without_order id x [] h = refl
is_resting-without_order id x (p ∷ os) h =
    let parts = or-false _ _ h in
    filtered (not (str_eq p.client_order_id x)) parts.0 (is_resting-without_order id x os parts.1)
  where
    filtered :
        (b : Bool)
        → str_eq p.client_order_id id ≡ false
        → is_resting id (without_order x os) ≡ false
        → is_resting id (if b then p ∷ without_order x os else without_order x os) ≡ false
    filtered true other rest = or-false-intro _ _ other rest
    filtered false other rest = rest

without_order-IsBook :
    (x : String) (os : List ActorOpenOrder) → IsBook os → IsBook (without_order x os)
without_order-IsBook x os nil = nil
without_order-IsBook x os (cons p ps alone size price rest) =
    filtered (not (str_eq p.client_order_id x)) (without_order-IsBook x ps rest)
  where
    filtered :
        (b : Bool)
        → IsBook (without_order x ps)
        → IsBook (if b then p ∷ without_order x ps else without_order x ps)
    filtered true kept =
        cons p (without_order x ps) (is_resting-without_order p.client_order_id x ps alone) size
          price kept
    filtered false kept = kept

some-inj : {a b : Applied} → some a ≡ some b → a ≡ b
some-inj h = cc

module _ (host : Host) (profile : ActorRiskProfile) (initial_equity : ℤ) where
  -- The accepted commands of any number of batches, in order.
  pub data Runs : ActorEngineState → List ActorCommand → ActorEngineState → Type 0 where
    done : (st : ActorEngineState) → Runs st [] st
    step :
        (st : ActorEngineState) (c : ActorCommand) (a : Applied) (cs : List ActorCommand)
        (last : ActorEngineState)
        → validate host profile initial_equity st c ≡ some ok
        → apply host profile initial_equity st c ≡ some a
        → Runs a.state cs last
        → Runs st (c ∷ cs) last

  with_timers-same :
      (st : ActorEngineState) (o : Option (List ScheduledTimer)) (a : Applied)
      → with_timers host profile initial_equity st o ≡ some a
      → st.open_orders ≡ a.state.open_orders
  with_timers-same st none a h = absurd (cc)
  with_timers-same st (some ts) a h = ap (λ x. x.state.open_orders) (some-inj h)

  place-IsBook :
      (st : ActorEngineState) (c : ActorPlaceCommand) (a : Applied)
      → validate host profile initial_equity st (place c) ≡ some ok
      → apply host profile initial_equity st (place c) ≡ some a
      → IsBook st.open_orders
      → IsBook a.state.open_orders
  place-IsBook st c a v h book =
      let booked = accepted-IsBooked host profile initial_equity st c v in
      let admissible = ((validate_place_iff host profile initial_equity st c).0 v).0 in
      let o = booked.1 in
      let facts = booked.4 in
      let same : booked.0 ≡ a = some-inj (sym booked.2 ∙ h) in
      subst (λ x. IsBook x.state.open_orders) same
        (subst IsBook (sym booked.3) (
          append-IsBook st.open_orders o book
            (subst (λ id. is_resting id st.open_orders ≡ false) (sym facts.same_id)
              admissible.fresh)
            facts.positive
            (subst (λ t. is_usable_price (trigger_price_of t) ≡ true) (sym facts.same_type)
              admissible.priced)))

  apply-IsBook :
      (st : ActorEngineState) (c : ActorCommand) (a : Applied)
      → validate host profile initial_equity st c ≡ some ok
      → apply host profile initial_equity st c ≡ some a
      → IsBook st.open_orders
      → IsBook a.state.open_orders
  unfolding apply
  apply-IsBook st (place c) a v h book = place-IsBook st c a v h book
  apply-IsBook st (cancel id) a v h book =
      subst (λ x. IsBook x.state.open_orders) (some-inj h)
        (without_order-IsBook id st.open_orders book)
  apply-IsBook st (timer_set id due) a v h book = subst IsBook (with_timers-same st _ a h) book
  apply-IsBook st (timer_cancel id) a v h book =
      subst IsBook (with_timers-same st (some (host.cancel_timer st.timers id)) a h) book
  apply-IsBook st (annotate note) a v h book =
      subst (λ x. IsBook x.state.open_orders) (some-inj h) book

  -- Any run of accepted commands keeps a book whose orders have distinct ids and positive sizes and
  -- prices.
  pub Runs-IsBook :
      (first : ActorEngineState) (cs : List ActorCommand) (last : ActorEngineState)
      → Runs first cs last
      → IsBook first.open_orders
      → IsBook last.open_orders
  Runs-IsBook first cs last (done st) book = book
  Runs-IsBook first cs last (step st c a rest end v h more) book =
      Runs-IsBook a.state rest last more (apply-IsBook st c a v h book)
