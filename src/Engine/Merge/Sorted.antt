-- ===== src/Engine/Merge/Sorted.antt =====
-- Ascending lists, and the first of the least elements of their concatenation.
use backtester.Prelude.{
  ℕ, ◌+◌, ◌≤◌, ◌<◌, List, [], ◌∷◌, ◌++◌, ◌≡◌, refl, ap, sym, ◌∙◌, arith, length, length-append, All,
  All-append, All-sort, sort, insert,
}
use backtester.Engine.Merge.{concat_by_symbol}
use backtester.Engine.Merge.Reference.{before_key}
use backtester.Engine.Merge.Scan.{Above, AtLeast}

module _ {ℓ} {A : Type ℓ} where
  append_assoc : (xs ys zs : List A) → (xs ++ ys) ++ zs ≡ xs ++ (ys ++ zs)
  append_assoc [] ys zs = refl
  append_assoc (x ∷ xs) ys zs = ap (λ r. x ∷ r) (append_assoc xs ys zs)

  pub concat-append :
      (ls ms : List (List A))
      → concat_by_symbol (ls ++ ms) ≡ concat_by_symbol ls ++ concat_by_symbol ms
  concat-append [] ms = refl
  concat-append (l ∷ ls) ms =
      ap (λ r. l ++ r) (concat-append ls ms)
      ∙ sym (append_assoc l (concat_by_symbol ls) (concat_by_symbol ms))

  pub length-concat :
      (before : List (List A)) (l : List A) (behind : List (List A))
      → length (concat_by_symbol (before ++ l ∷ behind))
        ≡ length (concat_by_symbol before) + (length l + length (concat_by_symbol behind))
  length-concat before l behind =
      ap length (concat-append before (l ∷ behind))
      ∙ length-append (concat_by_symbol before) (l ++ concat_by_symbol behind)
      ∙ ap (λ n. length (concat_by_symbol before) + n) (length-append l (concat_by_symbol behind))

  pub length_zero : (xs : List A) → length xs ≡ 0 → xs ≡ []
  length_zero [] h = refl
  length_zero (x ∷ xs) h = absurd (omega (arith, h))

module _ {ℓ} {A : Type ℓ} (key_of : A → ℕ) where
  abbrev pub Ascending : List A → Type 0
  Ascending [] = Unit
  Ascending (x ∷ xs) = All (λ y. key_of x ≤ key_of y) xs × Ascending xs

  -- Inserting a least element puts it in front.
  insert-least :
      (x : A) (ys : List A)
      → All (λ y. key_of x ≤ key_of y) ys
      → insert (before_key key_of) x ys ≡ x ∷ ys
  insert-least x [] h = refl
  insert-least x (y ∷ ys) (h, hs) = ground arith

  insert-behind :
      (a x : A) (ys : List A)
      → key_of x < key_of a
      → insert (before_key key_of) a (x ∷ ys) ≡ x ∷ insert (before_key key_of) a ys
  insert-behind a x ys h = ground arith

  -- The first of the least elements is the head of the sorted list.
  pub sort_first :
      (before : List A) (x : A) (behind : List A)
      → All (λ y. key_of x < key_of y) before
      → All (λ y. key_of x ≤ key_of y) behind
      → sort (before_key key_of) (before ++ x ∷ behind)
        ≡ x ∷ sort (before_key key_of) (before ++ behind)
  sort_first [] x behind h k =
      insert-least x (sort (before_key key_of) behind)
        (All-sort (before_key key_of) (λ y. key_of x ≤ key_of y) behind k)
  sort_first (a ∷ before) x behind (h, hs) k =
      ap (insert (before_key key_of) a) (sort_first before x behind hs k)
      ∙ insert-behind a x (sort (before_key key_of) (before ++ behind)) h

  All-weaken :
      (j k : ℕ) (xs : List A) → j < k → All (λ y. k ≤ key_of y) xs → All (λ y. j < key_of y) xs
  All-weaken j k [] h hs = tt
  All-weaken j k (x ∷ xs) h (l, hs) = (omega arith, All-weaken j k xs h hs)

  pub All-lower :
      (j k : ℕ) (xs : List A) → j ≤ k → All (λ y. k ≤ key_of y) xs → All (λ y. j ≤ key_of y) xs
  All-lower j k [] h hs = tt
  All-lower j k (x ∷ xs) h (l, hs) = (omega arith, All-lower j k xs h hs)

  pub All-Above :
      (k : ℕ) (ls : List (List A))
      → All Ascending ls
      → All (Above key_of k) ls
      → All (λ y. k < key_of y) (concat_by_symbol ls)
  All-Above k [] o h = tt
  All-Above k ([] ∷ ls) (u, o) (v, h) = All-Above k ls o h
  All-Above k ((x ∷ xs) ∷ ls) ((c, u), o) (v, h) = (
    v,
    All-append (λ y. k < key_of y) xs (concat_by_symbol ls) (All-weaken k (key_of x) xs v c)
        (All-Above k ls o h),
  )

  pub All-AtLeast :
      (k : ℕ) (ls : List (List A))
      → All Ascending ls
      → All (AtLeast key_of k) ls
      → All (λ y. k ≤ key_of y) (concat_by_symbol ls)
  All-AtLeast k [] o h = tt
  All-AtLeast k ([] ∷ ls) (u, o) (v, h) = All-AtLeast k ls o h
  All-AtLeast k ((x ∷ xs) ∷ ls) ((c, u), o) (v, h) = (
    v,
    All-append (λ y. k ≤ key_of y) xs (concat_by_symbol ls) (All-lower k (key_of x) xs v c)
        (All-AtLeast k ls o h),
  )
