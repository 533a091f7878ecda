-- ===== src/Actor/EngineState/Laws.antt =====
-- When an order is accepted, and what is booked for it.
use backtester.Prelude.{
  [], ◌∷◌, Option, none, some, Bool, true, false, not, ◌&&◌, ◌≡◌, refl, ap, subst, ◌++◌, ◌↔◌,
  if◌then◌else◌,
}
use backtester.Prelude.Int.{ℤ}
use backtester.Actor.Commands.{is_positive, exceeds, ActorPlaceCommand, place}
use backtester.Actor.Risk.{
  ActorRiskProfile, RiskDecision, ActorRiskVerdict, accept, clamp, reject, is_flat,
  exposure_ceiling_of,
}
use backtester.Actor.Risk.Laws.{
  size_under, lets_pass, evaluate_actor_place-positive, evaluate_actor_place-IsWithin,
}
use backtester.Actor.EngineState.{
  ActorEngineState, ActorOpenOrder, Validation, ok, RefusalReason, Host, is_ready, is_halted,
  is_reducing, would_add, is_usable_price, is_resting, trigger_price_of, warming_up, trading_halted,
  only_reduce_only, position_is_flat, exposure_would_grow, price_not_positive, size_not_positive,
  id_is_resting, refuse, judged_by, validate, verdict_on, Applied, apply, order_of, placed,
  booked_qty,
}

-- What an order must be before the risk profile is asked.
pub record IsAdmissible (st : ActorEngineState) (c : ActorPlaceCommand) : Type 0 where
  pub is_warm : is_ready st.readiness ≡ true
  pub trading : is_halted st.trading_state ≡ false
  pub reduces : (is_reducing st.trading_state && not c.reduce_only) ≡ false
  pub has_position : (c.reduce_only && is_flat st.ledger.qty) ≡ false
  pub shrinks : (c.reduce_only && would_add st.ledger.qty c.side) ≡ false
  pub priced : is_usable_price (trigger_price_of c.order_type) ≡ true
  pub fresh : is_resting c.client_order_id st.open_orders ≡ false
  pub sized_up : is_positive c.qty_usd ≡ true

-- A verdict that lets an order pass.
pub data Passes : Option ActorRiskVerdict → Type 0 where
  accepted : Passes (some accept)
  clamped : (q : ℤ) (d : RiskDecision) → Passes (some (clamp q d))

-- A refusal ends the checks.
past :
    (b : Bool) (reason : RefusalReason) (next : Option Validation)
    → (if b then refuse reason else next) ≡ some ok
    → (b ≡ false) × (next ≡ some ok)
past true reason next h = absurd (cc)
past false reason next h = (refl, h)

not-false : (b : Bool) → not b ≡ false → b ≡ true
not-false true h = refl
not-false false h = absurd (cc)

judged_by-Passes : (v : Option ActorRiskVerdict) → judged_by v ≡ some ok → Passes v
judged_by-Passes none h = absurd (cc)
judged_by-Passes (some accept) h = accepted
judged_by-Passes (some (clamp q d)) h = clamped q d
judged_by-Passes (some (reject s d)) h = absurd (cc)

Passes-judged_by : (v : Option ActorRiskVerdict) → Passes v → judged_by v ≡ some ok
Passes-judged_by v accepted = refl
Passes-judged_by v (clamped q d) = refl

module _ (host : Host) (profile : ActorRiskProfile) (initial_equity : ℤ) where
  validate-IsAdmissible :
      (st : ActorEngineState) (c : ActorPlaceCommand)
      → validate host profile initial_equity st (place c) ≡ some ok
      → IsAdmissible st c × Passes (verdict_on host profile initial_equity st c)
  unfolding validate
  validate-IsAdmissible st c h =
      let warm = past (not (is_ready st.readiness)) warming_up _ h in
      let trading = past _ trading_halted _ warm.1 in
      let reduces = past _ only_reduce_only _ trading.1 in
      let position = past _ position_is_flat _ reduces.1 in
      let shrinks = past _ exposure_would_grow _ position.1 in
      let price =
        past (not (is_usable_price (trigger_price_of c.order_type))) price_not_positive _
          shrinks.1 in
      let fresh = past _ id_is_resting _ price.1 in
      let size = past (not (is_positive c.qty_usd)) size_not_positive _ fresh.1 in
      (
        record {
          is_warm = not-false _ warm.0;
          trading = trading.0;
          reduces = reduces.0;
          has_position = position.0;
          shrinks = shrinks.0;
          priced = not-false _ price.0;
          fresh = fresh.0;
          sized_up = not-false _ size.0;
        },
        judged_by-Passes _ size.1,
      )

  IsAdmissible-validate :
      (st : ActorEngineState) (c : ActorPlaceCommand)
      → IsAdmissible st c
      → Passes (verdict_on host profile initial_equity st c)
      → validate host profile initial_equity st (place c) ≡ some ok
  unfolding validate
  IsAdmissible-validate st c a v =
      simp
        (a.is_warm, a.trading, a.reduces, a.has_position, a.shrinks, a.priced, a.fresh, a.sized_up)
        (Passes-judged_by _ v)

  -- What the book holds for an order that was accepted.
  pub record IsBooked (st : ActorEngineState) (c : ActorPlaceCommand) (o : ActorOpenOrder)
      : Type 0 where
    pub same_id : o.client_order_id ≡ c.client_order_id
    pub same_side : o.side ≡ c.side
    pub same_type : o.order_type ≡ c.order_type
    pub same_reduce_only : o.reduce_only ≡ c.reduce_only
    pub placed_now : o.placed_at_frontier ≡ st.frontier_index
    pub positive : is_positive o.qty_usd ≡ true
    pub within_ceiling :
        (ceiling : ℤ)
        → is_flat st.ledger.qty ≡ true
        → exposure_ceiling_of st.frontier_index st.ledger profile initial_equity
          ≡ some (some ceiling)
        → exceeds o.qty_usd ceiling ≡ false

  booked_qty-size_under :
      (c : ActorPlaceCommand) (v : ActorRiskVerdict)
      → size_under c v ≡ booked_qty host profile initial_equity c v
  booked_qty-size_under c accept = refl
  booked_qty-size_under c (clamp q d) = refl
  booked_qty-size_under c (reject s d) = refl

  Passes-some :
      (o : Option ActorRiskVerdict)
      → Passes o
      → (v : ActorRiskVerdict) × (o ≡ some v) × (lets_pass v ≡ true)
  Passes-some o accepted = (accept, refl, refl)
  Passes-some o (clamped q d) = (clamp q d, refl, refl)

  order-IsBooked :
      (st : ActorEngineState) (c : ActorPlaceCommand) (v : ActorRiskVerdict)
      → verdict_on host profile initial_equity st c ≡ some v
      → lets_pass v ≡ true
      → is_positive c.qty_usd ≡ true
      → IsBooked st c (order_of host profile initial_equity st c v)
  order-IsBooked st c v h passes p =
      let same = booked_qty-size_under c v in
      record {
        same_id = refl;
        same_side = refl;
        same_type = refl;
        same_reduce_only = refl;
        placed_now = refl;
        positive =
            subst (λ q. is_positive q ≡ true) same
              (evaluate_actor_place-positive st.frontier_index st.ledger profile initial_equity c v
                passes h p);
        within_ceiling = λ ceiling flat under.
            subst (λ q. exceeds q ceiling ≡ false) same
              (evaluate_actor_place-IsWithin st.frontier_index st.ledger profile initial_equity c v
                passes ceiling h flat under).within;
      }

  -- An accepted order is appended to the book with its own id, side, type and frontier and a
  -- positive size, which is within the exposure ceiling of the profile if the position is flat.
  pub accepted-IsBooked :
      (st : ActorEngineState) (c : ActorPlaceCommand)
      → validate host profile initial_equity st (place c) ≡ some ok
      → (a : Applied) × (o : ActorOpenOrder) × (apply host profile initial_equity st (place c)
          ≡ some a)
        × (a.state.open_orders ≡ st.open_orders ++ (o ∷ []))
        × IsBooked st c o
  unfolding apply
  accepted-IsBooked st c h =
      let checked = validate-IsAdmissible st c h in
      let passed = Passes-some _ checked.1 in
      (
        _,
        order_of host profile initial_equity st c passed.0,
        ap (placed host profile initial_equity st c) passed.1,
        refl,
        order-IsBooked st c passed.0 passed.1 passed.2 checked.0.sized_up,
      )

  -- An order is accepted exactly if the actor is ready, trading is not halted, the order reduces an
  -- open position where it says so or must, its price, size and id are usable, and the risk profile
  -- accepts or clamps it.
  pub validate_place_iff :
      (st : ActorEngineState) (c : ActorPlaceCommand)
      → (validate host profile initial_equity st (place c) ≡ some ok)
        ↔ (IsAdmissible st c × Passes (verdict_on host profile initial_equity st c))
  validate_place_iff st c = (validate-IsAdmissible st c, λ p. IsAdmissible-validate st c p.0 p.1)
