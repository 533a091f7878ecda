-- ===== src/Prelude/Optional.antt =====
-- Optional fields: `x ?? d`, a patch that overwrites only what it defines, and truthiness.
use Prim.Native.String.{String}
use mathlib.Core.Path.{◌≡◌, refl}
use mathlib.Core.Logic.{◌⊎◌, inl, inr}
use mathlib.Core.Bool.{Bool, true, false, not}
use mathlib.Core.Option.{Option, none, some}
use backtester.Prelude.Tests.{str_eq}

module _ {ℓ} {A : Type ℓ} where
  pub Option-cases : (o : Option A) → (o ≡ none) ⊎ ((a : A) × (o ≡ some a))
  Option-cases none = inl refl
  Option-cases (some a) = inr (a, refl)

  -- `o ?? d`.
  abbrev pub get_or : Option A → A → A
  get_or none d = d
  get_or (some a) d = a

  -- `if (given !== undefined) field = given`.
  abbrev pub override : Option A → Option A → Option A
  override none old = old
  override (some a) old = some a

  abbrev pub is_some : Option A → Bool
  is_some none = false
  is_some (some a) = true

-- A text is truthy unless it is empty.
abbrev pub truthy : String → Bool
truthy s = not (str_eq s "")

-- `o` as a condition, where `o` is a text or undefined.
abbrev pub truthy? : Option String → Bool
truthy? none = false
truthy? (some s) = truthy s

-- `o === some s`.
abbrev pub opt_str_eq : Option String → String → Bool
opt_str_eq none t = false
opt_str_eq (some s) t = str_eq s t
