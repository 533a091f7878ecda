-- ===== src/Prelude/TextOrder.antt =====
-- The order of texts is a total order's.
use Prim.Native.Nat.{ℕ, compare as compare_ℕ, Ordering}
use Prim.Native.String.{String, [], ◌∷◌, compare, then}
use Prim.Native.String.compare
use text.Mathlib.Text.{is_lt}
use native.Mathlib.Omega.{arith}
use mathlib.Core.Path.{◌≡◌, refl}
use mathlib.Core.Bool.{true, false}
use backtester.Prelude.Tests.{str_ltb}
use Prim.Native.Char.{code}

then_not_before :
    (a b c : ℕ) (x y z : Ordering)
    → is_lt (then (compare_ℕ a b) x) ≡ false
    → is_lt (then (compare_ℕ b c) y) ≡ false
    → (is_lt x ≡ false → is_lt y ≡ false → is_lt z ≡ false)
    → is_lt (then (compare_ℕ a c) z) ≡ false
then_not_before a b c x y z h k f = ground arith

then_asymmetric :
    (a b : ℕ) (x y : Ordering)
    → is_lt (then (compare_ℕ a b) x) ≡ true
    → (is_lt x ≡ true → is_lt y ≡ false)
    → is_lt (then (compare_ℕ b a) y) ≡ false
then_asymmetric a b x y h f = ground arith

pub str_ltb-not_before :
    (s t u : String) → str_ltb s t ≡ false → str_ltb t u ≡ false → str_ltb s u ≡ false
str_ltb-not_before [] [] u h k = k
str_ltb-not_before [] (d ∷ t) u h k = absurd (cc (rw (compare.nil-cons d t) at h))
str_ltb-not_before (c ∷ s) t [] h k = rw (compare.cons-nil c s) refl
str_ltb-not_before (c ∷ s) [] (e ∷ u) h k = absurd (cc (rw (compare.nil-cons e u) at k))
str_ltb-not_before (c ∷ s) (d ∷ t) (e ∷ u) h k = rw (compare.cons-cons c e s u) (
    then_not_before (code c) (code d) (code e) (compare s t) (compare t u) (compare s u)
      (rw (compare.cons-cons c d s t) at h) (rw (compare.cons-cons d e t u) at k)
      (str_ltb-not_before s t u))

pub str_ltb-asymmetric : (s t : String) → str_ltb s t ≡ true → str_ltb t s ≡ false
str_ltb-asymmetric [] [] h = refl
str_ltb-asymmetric [] (d ∷ t) h = rw (compare.cons-nil d t) refl
str_ltb-asymmetric (c ∷ s) [] h = absurd (cc (rw (compare.cons-nil c s) at h))
str_ltb-asymmetric (c ∷ s) (d ∷ t) h = rw (compare.cons-cons d c t s) (
    then_asymmetric (code c) (code d) (compare s t) (compare t s)
      (rw (compare.cons-cons c d s t) at h) (str_ltb-asymmetric s t))
