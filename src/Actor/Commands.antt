-- ===== src/Actor/Commands.antt =====
-- The commands of an actor as the SDK's contract shapes them, with the numbers that they carry.
-- Money, prices and quantities are floats in the source: here they are multiples of a smallest
-- unit, with the values that are not finite kept apart.
use backtester.Prelude.{ℕ, String, Bool, true, false}
use backtester.Prelude.Int.{ℤ, pos, ltb_ℤ}

pub data Number : Type 0 where
  finite : ℤ → Number
  nan plus_infinity minus_infinity : Number

-- `Number.isFinite(x) && x > 0`.
abbrev pub is_positive : Number → Bool
is_positive (finite q) = ltb_ℤ (pos 0) q
is_positive _ = false

-- `x > bound`.
abbrev pub exceeds : Number → ℤ → Bool
exceeds (finite q) bound = ltb_ℤ bound q
exceeds plus_infinity bound = true
exceeds nan bound = false
exceeds minus_infinity bound = false

pub data OrderSide : Type 0 where
  buy sell : OrderSide

-- The kind of an order with the price that it carries.
pub data OrderType : Type 0 where
  market : OrderType
  limit stop_market : Number → OrderType

pub record ActorPlaceCommand : Type 0 where
  pub client_order_id : String
  pub side : OrderSide
  pub qty_usd : Number
  pub order_type : OrderType
  pub reduce_only : Bool

-- `atTs` is absolute, `afterUs` counts from the delivery.
pub data TimerDue : Type 0 where
  at_ts after_us : ℕ → TimerDue

pub data ActorCommand : Type 0 where
  place : ActorPlaceCommand → ActorCommand
  cancel : String → ActorCommand
  timer_set : String → TimerDue → ActorCommand
  timer_cancel : String → ActorCommand
  annotate : String → ActorCommand

pub data ActorReadiness : Type 0 where
  warming ready : ActorReadiness

pub data TradingState : Type 0 where
  active reducing halted : TradingState
