-- ===== src/Actor/EngineState.antt =====
-- engine/actor/engine-state.ts: the state of an actor's core, and its commands validated and applied.
pub mod Laws
pub mod Runs
use mathlib.Core.List.{◌++◌}
use backtester.Prelude.{
  ℕ, ◌+◌, String, List, [], ◌∷◌, Option, none, some, Bool, true, false, not, ◌&&◌, any, filter,
  str_eq, if◌then◌else◌,
}
use backtester.Prelude.Int.{ℤ}
use backtester.Actor.Commands.{
  Number, finite, is_positive, OrderSide, OrderType, market, limit, stop_market, ActorPlaceCommand,
  TimerDue, at_ts, after_us, ActorCommand, place, cancel, timer_set, timer_cancel, annotate,
  ActorReadiness, warming, ready, TradingState, active, reducing, halted,
}
use backtester.Actor.Risk.{
  Ledger, ActorRiskProfile, RiskDecision, ActorRiskVerdict, accept, clamp, reject, is_flat,
  ActorOrderIntent, opens, adds, closes, order_intent_of, evaluate_actor_place,
}

pub record ActorOpenOrder : Type 0 where
  pub client_order_id : String
  pub side : OrderSide
  pub qty_usd : Number
  pub order_type : OrderType
  pub placed_at_frontier : ℕ
  pub placed_at_ts_us : ℕ
  pub reduce_only : Bool

pub record ScheduledTimer : Type 0 where
  pub timer_id : String
  pub due_ts_us : ℕ

pub record Note : Type 0 where
  pub frontier : ℕ
  pub note : String

pub record ActorEngineState : Type 0 where
  pub frontier_index : ℕ
  pub frontier_us : ℕ
  pub readiness : ActorReadiness
  pub trading_state : TradingState
  pub ledger : Ledger
  pub open_orders : List ActorOpenOrder
  pub timers : List ScheduledTimer
  pub notes : List Note
  pub risk_decisions : List RiskDecision

-- `null` for a market order, which has no price of its own.
abbrev pub trigger_price_of : OrderType → Option Number
trigger_price_of market = none
trigger_price_of (limit price) = some price
trigger_price_of (stop_market stop_price) = some stop_price

-- The causes of a refusal, in place of its text.
pub data RefusalReason : Type 0 where
  warming_up trading_halted only_reduce_only position_is_flat exposure_would_grow : RefusalReason
  price_not_positive size_not_positive id_is_resting : RefusalReason
  refused_by_risk : String → RefusalReason
  order_not_in_book timer_already_set empty_note : RefusalReason

pub data Validation : Type 0 where
  ok : Validation
  refused : RefusalReason → Validation

pub data ActorInputEvent : Type 0 where
  order_accepted order_canceled : String → ActorInputEvent
  order_denied cancel_rejected : String → RefusalReason → ActorInputEvent

-- An event with the source that it is delivered for.
pub record OutboxEvent : Type 0 where
  pub event : ActorInputEvent
  pub business_ts_us : ℕ
  pub subscription_id : String

pub record Applied : Type 0 where
  pub state : ActorEngineState
  pub events : List OutboxEvent

abbrev pub is_ready : ActorReadiness → Bool
is_ready warming = false
is_ready ready = true

abbrev pub is_halted : TradingState → Bool
is_halted active = false
is_halted reducing = false
is_halted halted = true

abbrev pub is_reducing : TradingState → Bool
is_reducing active = false
is_reducing reducing = true
is_reducing halted = false

abbrev is_adding : ActorOrderIntent → Bool
is_adding opens = false
is_adding adds = true
is_adding closes = false

-- The sign of the side is the sign of the position.
abbrev pub would_add : ℤ → OrderSide → Bool
would_add qty side = is_adding (order_intent_of qty side)

abbrev pub is_usable_price : Option Number → Bool
is_usable_price none = true
is_usable_price (some price) = is_positive price

abbrev pub is_resting : String → List ActorOpenOrder → Bool
is_resting id orders = any (λ o. str_eq o.client_order_id id) orders

abbrev pub is_timer_set : String → List ScheduledTimer → Bool
is_timer_set id timers = any (λ t. str_eq t.timer_id id) timers

abbrev pub without_order : String → List ActorOpenOrder → List ActorOpenOrder
without_order id orders = filter (λ o. not (str_eq o.client_order_id id)) orders

-- What the engine and the runtime bring: its timers, `trim`, and the identity of the host's events.
-- The error of a timer is `none`.
pub record Host : Type 0 where
  pub schedule_timer : List ScheduledTimer → String → ℕ → ℕ → Option (List ScheduledTimer)
  pub cancel_timer : List ScheduledTimer → String → List ScheduledTimer
  pub is_blank : String → Bool
  pub host_subscription_id : String

abbrev pub refuse : RefusalReason → Option Validation
refuse reason = some (refused reason)

abbrev pub due_of : ℕ → TimerDue → ℕ
due_of frontier_us (at_ts us) = us
due_of frontier_us (after_us us) = frontier_us + us

abbrev pub judged_by : Option ActorRiskVerdict → Option Validation
judged_by none = none
judged_by (some accept) = some ok
judged_by (some (clamp qty_usd decision)) = some ok
judged_by (some (reject risk_code decision)) = refuse (refused_by_risk risk_code)

module _ (host : Host) (profile : ActorRiskProfile) (initial_equity : ℤ) where
  abbrev pub outbox : ActorInputEvent → ℕ → OutboxEvent
  outbox event business_ts_us = record {
    event = event;
    business_ts_us = business_ts_us;
    subscription_id = host.host_subscription_id;
  }

  unfoldable pub actor_rejection_event : ActorCommand → RefusalReason → ℕ → OutboxEvent
  actor_rejection_event (place c) reason us = outbox (order_denied c.client_order_id reason) us
  actor_rejection_event (cancel id) reason us = outbox (cancel_rejected id reason) us
  actor_rejection_event (timer_set id due) reason us = outbox (order_denied "-timer.set" reason) us
  actor_rejection_event (timer_cancel id) reason us =
      outbox (order_denied "-timer.cancel" reason) us
  actor_rejection_event (annotate note) reason us = outbox (order_denied "-annotate" reason) us

  abbrev pub verdict_on : ActorEngineState → ActorPlaceCommand → Option ActorRiskVerdict
  verdict_on st c = evaluate_actor_place st.frontier_index st.ledger profile initial_equity c

  abbrev pub structured : ActorEngineState → ActorPlaceCommand → Option Validation
  structured st c =
      if not (is_usable_price (trigger_price_of c.order_type))
      then refuse price_not_positive
      else if is_resting c.client_order_id st.open_orders
      then refuse id_is_resting
      else if not (is_positive c.qty_usd)
      then refuse size_not_positive
      else judged_by (verdict_on st c)

  abbrev pub permitted : ActorEngineState → ActorPlaceCommand → Option Validation
  permitted st c =
      if not (is_ready st.readiness)
      then refuse warming_up
      else if is_halted st.trading_state
      then refuse trading_halted
      else if is_reducing st.trading_state && not c.reduce_only
      then refuse only_reduce_only
      else if c.reduce_only && is_flat st.ledger.qty
      then refuse position_is_flat
      else if c.reduce_only && would_add st.ledger.qty c.side
      then refuse exposure_would_grow
      else structured st c

  -- `none` stands for an error that is thrown.
  unfoldable pub validate : ActorEngineState → ActorCommand → Option Validation
  validate st (place c) = permitted st c
  validate st (cancel id) =
      if is_resting id st.open_orders then some ok else refuse order_not_in_book
  validate st (timer_set id due) =
      if is_timer_set id st.timers then refuse timer_already_set else some ok
  validate st (timer_cancel id) = some ok
  validate st (annotate note) = if host.is_blank note then refuse empty_note else some ok

  abbrev pub booked_qty : ActorPlaceCommand → ActorRiskVerdict → Number
  booked_qty c (clamp qty_usd decision) = finite qty_usd
  booked_qty c accept = c.qty_usd
  booked_qty c (reject risk_code decision) = c.qty_usd

  abbrev pub decisions_of : ActorRiskVerdict → List RiskDecision
  decisions_of (clamp qty_usd decision) = decision ∷ []
  decisions_of accept = []
  decisions_of (reject risk_code decision) = []

  abbrev pub order_of : ActorEngineState → ActorPlaceCommand → ActorRiskVerdict → ActorOpenOrder
  order_of st c verdict = record {
    client_order_id = c.client_order_id;
    side = c.side;
    qty_usd = booked_qty c verdict;
    order_type = c.order_type;
    placed_at_frontier = st.frontier_index;
    placed_at_ts_us = st.frontier_us;
    reduce_only = c.reduce_only;
  }

  abbrev pub placed :
      ActorEngineState → ActorPlaceCommand → Option ActorRiskVerdict → Option Applied
  placed st c none = none
  placed st c (some verdict) = some (record {
    state = record st {
      open_orders = st.open_orders ++ (order_of st c verdict ∷ []);
      risk_decisions = st.risk_decisions ++ decisions_of verdict;
    };
    events = outbox (order_accepted c.client_order_id) st.frontier_us ∷ [];
  })

  abbrev pub with_timers : ActorEngineState → Option (List ScheduledTimer) → Option Applied
  with_timers st none = none
  with_timers st (some timers) =
      some (record { state = record st { timers = timers }; events = [] })

  unfoldable pub apply : ActorEngineState → ActorCommand → Option Applied
  apply st (place c) = placed st c (verdict_on st c)
  apply st (cancel id) = some (record {
    state = record st { open_orders = without_order id st.open_orders };
    events = outbox (order_canceled id) st.frontier_us ∷ [];
  })
  apply st (timer_set id due) =
      with_timers st (host.schedule_timer st.timers id (due_of st.frontier_us due) st.frontier_us)
  apply st (timer_cancel id) = with_timers st (some (host.cancel_timer st.timers id))
  apply st (annotate note) = some (record {
    state = record st {
      notes = st.notes ++ (record { frontier = st.frontier_index; note = note } ∷ []);
    };
    events = [];
  })
