-- ===== src/Actor/Risk/Refusal.antt =====
-- The text of a refusal read back.
use Prim.Native.Char.{code}
use backtester.Prelude.{
  String, some, Bool, true, false, ◌≡◌, refl, arith, str_eq, ◌==◌, if◌then◌else◌,
}
use backtester.Actor.Risk.{
  append, strip_prefix, before_colon, format_risk_refusal, parse_risk_refusal,
}

abbrev pub has_colon : String → Bool
has_colon String.[] = false
has_colon (String.◌∷◌ c s) = if code c == b':' then true else has_colon s

strip_prefix-append : (p s : String) → strip_prefix p (append p s) ≡ some s
strip_prefix-append String.[] s = refl
strip_prefix-append (String.◌∷◌ c p) s = ground (arith, strip_prefix-append p s)

before_colon-append :
    (s t : String) → has_colon s ≡ false → before_colon (append s (append ": " t)) ≡ some s
before_colon-append String.[] t h = refl
before_colon-append (String.◌∷◌ c s) t h = ground (arith, before_colon-append s t)

-- The code of a refusal is read back from its text if it is not empty and has no colon.
pub parse_risk_refusal-format_risk_refusal :
    (refusal_code human : String)
    → has_colon refusal_code ≡ false
    → str_eq refusal_code "" ≡ false
    → parse_risk_refusal (format_risk_refusal refusal_code human) ≡ some refusal_code
unfolding parse_risk_refusal format_risk_refusal
parse_risk_refusal-format_risk_refusal refusal_code human no_colon nonempty =
    simp (before_colon-append refusal_code human no_colon, nonempty) refl
