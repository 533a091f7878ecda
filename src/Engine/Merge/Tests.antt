-- ===== src/Engine/Merge/Tests.antt =====
-- Trades of two symbols merged by their times, and the theorems at them.
use backtester.Prelude.{ℕ, List, [], ◌∷◌, some, ◌≡◌, refl}
use backtester.Engine.Merge.{full_sort, merge_by_key, merge_rounds}
use backtester.Engine.Merge.Laws.{merge_by_key-full_sort}

-- A time with the number of a trade.
abbrev exit_ts : ℕ × ℕ → ℕ
exit_ts t = t.0

abbrev trades : List (List (ℕ × ℕ))
trades = ((1, 10) ∷ (3, 11) ∷ []) ∷ [] ∷ ((1, 20) ∷ (2, 21) ∷ (3, 22) ∷ []) ∷ []

merge_by_key-full_sort_example : merge_by_key exit_ts trades ≡ some (full_sort exit_ts trades)
merge_by_key-full_sort_example = merge_by_key-full_sort exit_ts trades

-- Equal times come in the order of the symbols.
trades_merged :
    merge_by_key exit_ts trades ≡ some ((1, 10) ∷ (1, 20) ∷ (2, 21) ∷ (3, 11) ∷ (3, 22) ∷ [])
unfolding merge_by_key merge_rounds
trades_merged = refl

-- A list that is not sorted sends the merge back to the full sort.
unsorted_merged :
    merge_by_key exit_ts (((3, 11) ∷ (1, 10) ∷ []) ∷ ((1, 20) ∷ []) ∷ [])
    ≡ some ((1, 10) ∷ (1, 20) ∷ (3, 11) ∷ [])
unfolding merge_by_key merge_rounds full_sort
unsorted_merged = refl
