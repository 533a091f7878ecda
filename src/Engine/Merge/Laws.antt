-- ===== src/Engine/Merge/Laws.antt =====
-- The merge of sorted lists is the full sort that it replaces.
use mathlib.Core.Option as Option
use backtester.Prelude.{
  ℕ, zero, suc, ◌≤◌, ◌<◌, List, [], ◌∷◌, ◌++◌, Option, none, some, true, ◌≡◌, refl, ap, sym, subst,
  ◌∙◌, arith, length, All, All-append, all, sort, inl, inr, Bool-cases,
}
use backtester.Engine.Merge.{
  concat_by_symbol, never_falls, is_presorted, full_sort, scan, take_at, take_picked, push,
  merge_rounds, merge_by_key,
}
use backtester.Engine.Merge.Reference.{before_key, full_sort-sort}
use backtester.Engine.Merge.Scan.{IsNil, Pick, Best, scan-Best, take_at-append}
use backtester.Engine.Merge.Sorted.{
  Ascending, concat-append, length-concat, length_zero, sort_first, All-lower, All-Above,
  All-AtLeast,
}

module _ {ℓ} {A : Type ℓ} (key_of : A → ℕ) where
  -- The lists around a pick, and the pick's own list.
  Ascending-parts :
      (before : List (List A)) (l : List A) (behind : List (List A))
      → All (Ascending key_of) (before ++ l ∷ behind)
      → All (Ascending key_of) before × Ascending key_of l × All (Ascending key_of) behind
  Ascending-parts [] l behind (h, hs) = (tt, h, hs)
  Ascending-parts (b ∷ before) l behind (h, hs) =
      let rest = Ascending-parts before l behind hs in ((h, rest.0), rest.1, rest.2)

  -- What a pick leaves.
  module _ (lists : List (List A)) (p k : ℕ) (o : Pick key_of lists p k)
      (sorted : All (Ascending key_of) lists) where
    abbrev left : List (List A)
    left = o.before ++ o.tail ∷ o.behind

    parts :
        All (Ascending key_of) o.before
        × Ascending key_of (o.head ∷ o.tail)
        × All (Ascending key_of) o.behind
    parts =
        Ascending-parts o.before (o.head ∷ o.tail) o.behind
          (subst (All (Ascending key_of)) o.split sorted)

    left-Ascending : All (Ascending key_of) left
    left-Ascending =
        All-append (Ascending key_of) o.before (o.tail ∷ o.behind) parts.0 (parts.1.1, parts.2)

    took : take_at p lists ≡ some (o.head, left)
    took =
        ap (take_at p) o.split
        ∙ ap (λ n. take_at n (o.before ++ (o.head ∷ o.tail) ∷ o.behind)) (sym o.place)
        ∙ take_at-append o.before o.head o.tail o.behind

    sorted_first :
        sort (before_key key_of) (concat_by_symbol lists)
        ≡ o.head ∷ sort (before_key key_of) (concat_by_symbol left)
    sorted_first =
        ap (λ r. sort (before_key key_of) (concat_by_symbol r)) o.split
        ∙ ap (sort (before_key key_of)) (concat-append o.before ((o.head ∷ o.tail) ∷ o.behind))
        ∙ sort_first key_of (concat_by_symbol o.before) o.head (o.tail ++ concat_by_symbol o.behind)
            (subst (λ n. All (λ y. n < key_of y) (concat_by_symbol o.before)) (sym o.own_key)
              (All-Above key_of k o.before parts.0 o.above))
            (All-append (λ y. key_of o.head ≤ key_of y) o.tail (concat_by_symbol o.behind) parts.1.0
              (subst (λ n. All (λ y. n ≤ key_of y) (concat_by_symbol o.behind)) (sym o.own_key)
                (All-AtLeast key_of k o.behind parts.2 o.at_least)))
        ∙ ap (λ r. o.head ∷ sort (before_key key_of) r)
            (sym (concat-append o.before (o.tail ∷ o.behind)))

    left-length :
        (n : ℕ) → length (concat_by_symbol lists) ≡ suc n → length (concat_by_symbol left) ≡ n
    left-length n h =
        let whole =
          sym h
          ∙ ap (λ r. length (concat_by_symbol r)) o.split
          ∙ length-concat o.before (o.head ∷ o.tail) o.behind in
        let rest = length-concat o.before o.tail o.behind in omega (arith, whole, rest)

  sort_nothing : (lists : List (List A)) → All (IsNil key_of) lists → concat_by_symbol lists ≡ []
  sort_nothing [] h = refl
  sort_nothing ([] ∷ ls) (u, h) = sort_nothing ls h
  sort_nothing ((x ∷ xs) ∷ ls) (u, h) = absurd u

  merge_rounds-sort :
      (n : ℕ) (lists : List (List A))
      → length (concat_by_symbol lists) ≡ n
      → All (Ascending key_of) lists
      → merge_rounds key_of n lists ≡ some (sort (before_key key_of) (concat_by_symbol lists))
  unfolding merge_rounds
  merge_rounds-sort zero lists h sorted =
      ap (λ r. some (sort (before_key key_of) r)) (sym (length_zero (concat_by_symbol lists) h))
  merge_rounds-sort (suc n) lists h sorted =
      by_scan (scan key_of 0 none lists) (scan-Best key_of [] lists none (tt, tt))
        (λ ls e o. merge_rounds-sort n ls e o)
    where
      by_scan :
          (best : Option (ℕ × ℕ))
          → Best key_of lists best
          → ((ls : List (List A))
              → length (concat_by_symbol ls) ≡ n
              → All (Ascending key_of) ls
              → merge_rounds key_of n ls ≡ some (sort (before_key key_of) (concat_by_symbol ls)))
          → push key_of (take_picked key_of best lists) (λ ls. merge_rounds key_of n ls)
            ≡ some (sort (before_key key_of) (concat_by_symbol lists))
      by_scan none b next =
          let nothing : length (concat_by_symbol lists) ≡ 0 = ap length (sort_nothing lists b.0) in
          absurd (omega (arith, h, nothing))
      by_scan (some (p, k)) o next =
          ap (λ r. push key_of r (λ ls. merge_rounds key_of n ls)) (took lists p k o sorted)
          ∙ ap (Option.map (λ out. o.head ∷ out)) (
              next (left lists p k o sorted) (left-length lists p k o sorted n h)
                (left-Ascending lists p k o sorted))
          ∙ ap some (sym (sorted_first lists p k o sorted))

  never_falls-Ascending :
      (k : ℕ) (xs : List A)
      → never_falls key_of k xs ≡ true
      → All (λ y. k ≤ key_of y) xs × Ascending key_of xs
  never_falls-Ascending k [] h = (tt, tt)
  never_falls-Ascending k (x ∷ xs) h =
      let step : (k ≤ key_of x) × (never_falls key_of (key_of x) xs ≡ true) = ground arith in
      let rest = never_falls-Ascending (key_of x) xs step.1 in
      ((step.0, All-lower key_of k (key_of x) xs step.0 rest.0), rest)

  is_presorted-Ascending : (xs : List A) → is_presorted key_of xs ≡ true → Ascending key_of xs
  is_presorted-Ascending [] h = tt
  is_presorted-Ascending (x ∷ xs) h = never_falls-Ascending (key_of x) xs h

  all-Ascending :
      (lists : List (List A))
      → all (is_presorted key_of) lists ≡ true
      → All (Ascending key_of) lists
  all-Ascending [] h = tt
  all-Ascending (l ∷ ls) h =
      let step : (is_presorted key_of l ≡ true) × (all (is_presorted key_of) ls ≡ true) =
        ground arith in
      (is_presorted-Ascending l step.0, all-Ascending ls step.1)

  -- The merge never fails, and it is the full sort whether or not the lists are sorted.
  pub merge_by_key-full_sort :
      (lists : List (List A)) → merge_by_key key_of lists ≡ some (full_sort key_of lists)
  unfolding merge_by_key
  merge_by_key-full_sort lists = elim (Bool-cases (all (is_presorted key_of) lists)) [
    | inl e ↦ rw e (
        merge_rounds-sort (length (concat_by_symbol lists)) lists refl (all-Ascending lists e)
        ∙ ap some (sym (full_sort-sort key_of lists)))
    | inr e ↦ rw e refl
  ]
