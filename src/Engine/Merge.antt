-- ===== src/Engine/Merge.antt =====
-- engine/bar-major-aggregate.ts: the lists of several symbols merged by a key.
pub mod Reference
pub mod Scan
pub mod Sorted
pub mod Laws
pub mod Tests
use mathlib.Core.Option as Option
use backtester.Prelude.{
  ℕ, zero, suc, ◌+◌, List, [], ◌∷◌, ◌++◌, Option, none, some, Bool, true, false, not, ◌&&◌, ◌||◌,
  ltb, ◌==◌, if◌then◌else◌, length, map, all, sort,
}

-- An element with the index of its list, and its own index in it.
pub record Tagged {ℓ} (A : Type ℓ) : Type ℓ where
  pub item : A
  pub symbol_index : ℕ
  pub orig_index : ℕ

module _ {ℓ} {A : Type ℓ} where
  -- `lists.flatMap((list) => [...list])`.
  abbrev pub concat_by_symbol : List (List A) → List A
  concat_by_symbol [] = []
  concat_by_symbol (l ∷ ls) = l ++ concat_by_symbol ls

  abbrev pub tag_list : ℕ → ℕ → List A → List (Tagged A)
  tag_list s i [] = []
  tag_list s i (x ∷ xs) =
      record { item = x; symbol_index = s; orig_index = i } ∷ tag_list s (suc i) xs

  abbrev pub tag_lists : ℕ → List (List A) → List (Tagged A)
  tag_lists s [] = []
  tag_lists s (l ∷ ls) = tag_list s 0 l ++ tag_lists (suc s) ls

  -- `lists[s][ptr[s]]`, and the pointer moved on. The pointers are kept as the rests of the lists.
  abbrev pub take_at : ℕ → List (List A) → Option (A × List (List A))
  take_at p [] = none
  take_at zero ([] ∷ ls) = none
  take_at zero ((x ∷ xs) ∷ ls) = some (x, xs ∷ ls)
  take_at (suc p) (l ∷ ls) = Option.map (λ r. (r.0, l ∷ r.1)) (take_at p ls)

module _ {ℓ} {A : Type ℓ} (key_of : A → ℕ) where
  abbrev pub never_falls : ℕ → List A → Bool
  never_falls k [] = true
  never_falls k (x ∷ xs) = not (ltb (key_of x) k) && never_falls (key_of x) xs

  abbrev pub is_presorted : List A → Bool
  is_presorted [] = true
  is_presorted (x ∷ xs) = never_falls (key_of x) xs

  -- The comparator of the full sort is negative.
  abbrev pub before_tagged : Tagged A → Tagged A → Bool
  before_tagged a b =
      ltb (key_of a.item) (key_of b.item)
      || (key_of a.item == key_of b.item
          && (ltb a.symbol_index b.symbol_index
              || (a.symbol_index == b.symbol_index && ltb a.orig_index b.orig_index)))

  unfoldable pub full_sort : List (List A) → List A
  full_sort lists = map (λ t. t.item) (sort before_tagged (tag_lists 0 lists))

  -- `pick` and `pickKey`; `none` stands for a `pick` of -1.
  abbrev pub better : ℕ → ℕ → Option (ℕ × ℕ) → Option (ℕ × ℕ)
  better s key none = some (s, key)
  better s key (some (pick, pick_key)) =
      if ltb key pick_key then some (s, key) else some (pick, pick_key)

  abbrev pub scan : ℕ → Option (ℕ × ℕ) → List (List A) → Option (ℕ × ℕ)
  scan s best [] = best
  scan s best ([] ∷ ls) = scan (suc s) best ls
  scan s best ((x ∷ xs) ∷ ls) = scan (suc s) (better s (key_of x) best) ls

  abbrev pub take_picked : Option (ℕ × ℕ) → List (List A) → Option (A × List (List A))
  take_picked none rests = none
  take_picked (some (pick, pick_key)) rests = take_at pick rests

  abbrev pub push : Option (A × List (List A)) → (List (List A) → Option (List A)) → Option (List A)
  push none next = none
  push (some (x, ls)) next = Option.map (λ out. x ∷ out) (next ls)

  -- One round per element; `none` stands for the error of a read at an index that is not there.
  unfoldable pub merge_rounds : ℕ → List (List A) → Option (List A)
  merge_rounds zero rests = some []
  merge_rounds (suc rounds) rests =
      push (take_picked (scan 0 none rests) rests) (λ ls. merge_rounds rounds ls)

  unfoldable pub merge_by_key : List (List A) → Option (List A)
  merge_by_key lists =
      if all is_presorted lists
      then merge_rounds (length (concat_by_symbol lists)) lists
      else some (full_sort lists)
