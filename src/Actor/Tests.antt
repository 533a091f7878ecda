-- ===== src/Actor/Tests.antt =====
-- Concrete orders of an actor, and the theorems at them.
use backtester.Prelude.{
  [], ◌∷◌, none, some, true, false, ◌≡◌, refl, ◌++◌, ◌↔◌, ltb, not, str_eq, filter, if◌then◌else◌,
}
use backtester.Prelude.Int.{ℤ, pos, negsuc}
use backtester.Actor.Commands.{finite, buy, limit, ActorPlaceCommand, place, cancel, active, ready}
use backtester.Actor.Risk.{
  ActorRiskProfile, whole, format_risk_refusal, parse_risk_refusal, evaluate_actor_place,
  exposure_ceiling_of, flat_equity_of, clamp_action, order_intent_of,
}
use backtester.Actor.Risk.Refusal.{parse_risk_refusal-format_risk_refusal}
use backtester.Actor.EngineState.{
  ActorEngineState, ActorOpenOrder, Host, Applied, ok, refused, refused_by_risk, order_accepted,
  order_canceled, validate, apply, verdict_on,
}
use backtester.Actor.EngineState.Laws.{
  IsAdmissible, Passes, IsBooked, accepted-IsBooked, validate_place_iff,
}
use backtester.Actor.EngineState.Runs.{IsBook, nil, done, step, Runs-IsBook}

abbrev profile : ActorRiskProfile
profile = record {
  id = "conservative";
  version = "1";
  max_concurrent_positions = some (whole 1);
  exposure_limits = some (record { is_valid = true; share_of = λ e. pos 50 });
  allowed_sides = some ("long" ∷ []);
}

abbrev flat_start : ActorEngineState
flat_start = record {
  frontier_index = 3;
  frontier_us = 7000;
  readiness = ready;
  trading_state = active;
  ledger = record { qty = pos 0; realized_pnl = negsuc 9 };
  open_orders = [];
  timers = [];
  notes = [];
  risk_decisions = [];
}

abbrev host : Host
host = record {
  schedule_timer = λ ts id due now.
      if ltb due now then none else some (record { timer_id = id; due_ts_us = due } ∷ ts);
  cancel_timer = λ ts id. filter (λ t. not (str_eq t.timer_id id)) ts;
  is_blank = λ note. str_eq note "";
  host_subscription_id = "host";
}

abbrev big_buy : ActorPlaceCommand
big_buy = record {
  client_order_id = "a";
  side = buy;
  qty_usd = finite (pos 80);
  order_type = limit (finite (pos 10));
  reduce_only = false;
}

abbrev equity : ℤ
equity = pos 100

parse_risk_refusal-format_risk_refusal_example :
    parse_risk_refusal (format_risk_refusal "add_not_permitted" "позиция уже открыта: 3")
    ≡ some "add_not_permitted"
parse_risk_refusal-format_risk_refusal_example =
    parse_risk_refusal-format_risk_refusal "add_not_permitted" "позиция уже открыта: 3" refl refl

big_buy_ok : validate host profile equity flat_start (place big_buy) ≡ some ok
unfolding validate evaluate_actor_place exposure_ceiling_of flat_equity_of order_intent_of
big_buy_ok = refl

accepted-IsBooked_example :
    (a : Applied) × (o : ActorOpenOrder) × (apply host profile equity flat_start (place big_buy)
      ≡ some a)
    × (a.state.open_orders ≡ [] ++ (o ∷ []))
    × IsBooked host profile equity flat_start big_buy o
accepted-IsBooked_example = accepted-IsBooked host profile equity flat_start big_buy big_buy_ok

validate_place_iff_example :
    (validate host profile equity flat_start (place big_buy) ≡ some ok)
    ↔ (IsAdmissible flat_start big_buy × Passes (verdict_on host profile equity flat_start big_buy))
validate_place_iff_example = validate_place_iff host profile equity flat_start big_buy

abbrev booked : Applied
booked = record {
  state = record flat_start {
    open_orders =
        (record {
          client_order_id = "a";
          side = buy;
          qty_usd = finite (pos 50);
          order_type = limit (finite (pos 10));
          placed_at_frontier = 3;
          placed_at_ts_us = 7000;
          reduce_only = false;
        }
          ∷ []);
    risk_decisions =
        (record {
          bar_index = 3;
          action = clamp_action;
          reason = "notional_clamped";
          clamped = some (finite (pos 80), pos 50);
        }
          ∷ []);
  };
  events =
      record { event = order_accepted "a"; business_ts_us = 7000; subscription_id = "host" } ∷ [];
}

booked_by_apply : apply host profile equity flat_start (place big_buy) ≡ some booked
unfolding apply evaluate_actor_place exposure_ceiling_of flat_equity_of order_intent_of
booked_by_apply = refl

abbrev withdrawn : Applied
withdrawn = record {
  state = record booked.state { open_orders = [] };
  events =
      record { event = order_canceled "a"; business_ts_us = 7000; subscription_id = "host" } ∷ [];
}

withdrawal_ok : validate host profile equity booked.state (cancel "a") ≡ some ok
unfolding validate
withdrawal_ok = refl

withdrawn_by_apply : apply host profile equity booked.state (cancel "a") ≡ some withdrawn
unfolding apply
withdrawn_by_apply = refl

Runs-IsBook_example : IsBook withdrawn.state.open_orders
Runs-IsBook_example =
    Runs-IsBook host profile equity flat_start (place big_buy ∷ cancel "a" ∷ []) withdrawn.state
      (step flat_start (place big_buy) booked (cancel "a" ∷ []) withdrawn.state big_buy_ok
        booked_by_apply
        (step booked.state (cancel "a") withdrawn [] withdrawn.state withdrawal_ok
          withdrawn_by_apply (done withdrawn.state)))
      nil

-- An order on the side of the position is refused, with the code of the profile.
abbrev long_state : ActorEngineState
long_state = record flat_start { ledger = record { qty = pos 5; realized_pnl = pos 0 } }

add_refused :
    validate host profile equity long_state (place big_buy)
    ≡ some (refused (refused_by_risk "add_not_permitted"))
unfolding validate evaluate_actor_place exposure_ceiling_of flat_equity_of order_intent_of
add_refused = refl
