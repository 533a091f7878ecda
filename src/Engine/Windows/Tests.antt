-- ===== src/Engine/Windows/Tests.antt =====
-- The theorems on windows at concrete inputs. A date is its milliseconds, written in unary.
use backtester.Prelude.{
  ℕ, suc, zero, ◌≡◌, refl, String, List, [], ◌∷◌, Option, some, arith, filter, length, ap,
}
use backtester.Jobs.Row.{RunPeriod}
use backtester.Engine.Windows.{
  EquityPoint, anchored_test_equity, with_anchor, is_within, split_walk_forward, rolling,
  FoldWindow,
}
use backtester.Engine.Windows.Laws.{
  IsAnchor, anchored_test_equity-IsAnchored, Contiguous, split_walk_forward-Contiguous,
}

abbrev point : ℕ → EquityPoint
point at = record { bar_index = at; bar_ts = at; equity = "10000" }

abbrev curve : List EquityPoint
curve = point 1 ∷ point 2 ∷ point 3 ∷ point 4 ∷ []

anchored_test_equity-IsAnchored_example :
    (o : Option EquityPoint) × (anchored_test_equity curve 3 4
      ≡ with_anchor o (filter (is_within 3 4) curve))
    × IsAnchor curve 3 o
anchored_test_equity-IsAnchored_example = anchored_test_equity-IsAnchored curve 3 4

-- A text is the date of its length.
abbrev chars : String → ℕ
chars String.[] = 0
chars (String.◌∷◌ c s) = suc (chars s)

abbrev parse : String → Option ℕ
parse s = some (chars s)

abbrev iso : ℕ → String
iso zero = ""
iso (suc n) = String.◌∷◌ "x" (iso n)

iso-parse : (n : ℕ) → chars (iso n) ≡ n
iso-parse zero = refl
iso-parse (suc n) = ap suc (iso-parse n)

abbrev month : RunPeriod
month = record { from = ""; to = "xxxxxxxxxxxx" }

split_walk_forward-Contiguous_example :
    (fs : List FoldWindow) × (split_walk_forward parse iso (λ x y. x) month rolling 3 ≡ some fs)
    × (length fs ≡ 3)
    × Contiguous fs
split_walk_forward-Contiguous_example =
    split_walk_forward-Contiguous parse iso (λ x y. x) month rolling 3 0 12 refl refl (omega arith)
      (omega arith) (omega arith)
