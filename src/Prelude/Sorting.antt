-- ===== src/Prelude/Sorting.antt =====
-- `Array.prototype.sort`, which is stable: insertion behind every element that is not greater.
use mathlib.Core.Path.{◌≡◌, refl}
use mathlib.Core.Bool.{Bool, true, false}
use mathlib.Core.List.{List, [], ◌∷◌}
use native.Mathlib.Omega.{arith}
use mathlib.Core.List.{Perm}
use mathlib.Core.List.Perm
use backtester.Prelude.Tests.{if◌then◌else◌, Bool-cases}
use backtester.Prelude.Lists.{All}
use mathlib.Core.Logic.{inl, inr}

module _ {ℓ} {A : Type ℓ} (before : A → A → Bool) where
  -- `before a b` is `compare(a, b) < 0`.
  abbrev pub insert : A → List A → List A
  insert a [] = a ∷ []
  insert a (b ∷ bs) = if before b a then b ∷ insert a bs else a ∷ b ∷ bs

  -- The list is read from its end, so that an element goes in front of its equals.
  abbrev pub sort : List A → List A
  sort [] = []
  sort (a ∷ xs) = insert a (sort xs)

  pub insert-perm : (a : A) (bs : List A) → Perm (insert a bs) (a ∷ bs)
  insert-perm a [] = Perm.refl _
  insert-perm a (b ∷ bs) = elim (Bool-cases (before b a)) [
    | inl h ↦ rw h (Perm.trans (Perm.cons b (insert-perm a bs)) (Perm.swap a b bs))
    | inr h ↦ rw h (Perm.refl _)
  ]

  pub sort-perm : (xs : List A) → Perm (sort xs) xs
  sort-perm [] = Perm.refl _
  sort-perm (a ∷ xs) = Perm.trans (insert-perm a (sort xs)) (Perm.cons a (sort-perm xs))

module _ {ℓ κ} {A : Type ℓ} (before : A → A → Bool) (P : A → Type κ) where
  pub All-insert : (a : A) (bs : List A) → P a → All P bs → All P (insert before a bs)
  All-insert a [] h hs = (h, tt)
  All-insert a (b ∷ bs) h (k, hs) = ground (arith, All-insert a bs h hs)

  pub All-sort : (xs : List A) → All P xs → All P (sort before xs)
  All-sort [] h = tt
  All-sort (a ∷ xs) (h, hs) = All-insert a (sort before xs) h (All-sort xs hs)

module _ {ℓ κ} {A : Type ℓ} (before : A → A → Bool) (P : A → Type κ) where
  insert-All : (a : A) (bs : List A) → All P (insert before a bs) → P a × All P bs
  insert-All a [] h = h
  insert-All a (b ∷ bs) h = elim (Bool-cases (before b a)) [
    | inl e ↦
        let hs : P b × All P (insert before a bs) = rw (e, insert) at h in
        let (pa, ps) = insert-All a bs hs.1 in (pa, (hs.0, ps))
    | inr e ↦ rw (e, insert) at h
  ]

  -- What holds of all of the sorted list holds of all of the list.
  pub sort-All : (xs : List A) → All P (sort before xs) → All P xs
  sort-All [] h = tt
  sort-All (a ∷ xs) h = let (pa, ps) = insert-All a (sort before xs) h in (pa, sort-All xs ps)

module _ {ℓ} {A : Type ℓ} (before : A → A → Bool) where
  insert-ne-nil : (a : A) (bs : List A) → insert before a bs ≡ [] → ⊥
  insert-ne-nil a [] h = cc
  insert-ne-nil a (b ∷ bs) h = elim (Bool-cases (before b a)) [
    | inl e ↦ cc (rw (e, insert) at h)
    | inr e ↦ cc (rw (e, insert) at h)
  ]

  pub sort-nil : (xs : List A) → sort before xs ≡ [] → xs ≡ []
  sort-nil [] h = refl
  sort-nil (a ∷ xs) h = absurd (insert-ne-nil a (sort before xs) h)

-- Nothing of a sorted list comes before its head, if the comparison is a total preorder's.
module _ {ℓ} {A : Type ℓ} (before : A → A → Bool)
    (asymmetric : (a b : A) → before a b ≡ true → before b a ≡ false)
    (not_before : (a b c : A) → before a b ≡ false → before b c ≡ false → before a c ≡ false) where
  abbrev pub Least : List A → Type 0
  Least [] = Unit {0}
  Least (a ∷ bs) = All (λ b. before b a ≡ false) (a ∷ bs)

  All-not_before :
      (a b : A) (bs : List A)
      → before b a ≡ false
      → All (λ c. before c b ≡ false) bs
      → All (λ c. before c a ≡ false) bs
  All-not_before a b [] h hs = tt
  All-not_before a b (c ∷ cs) h (k, hs) = (not_before c b a k h, All-not_before a b cs h hs)

  irreflexive : (a : A) → before a a ≡ false
  irreflexive a = elim (Bool-cases (before a a)) [ inl e ↦ asymmetric a a e | inr e ↦ e ]

  insert-Least : (a : A) (bs : List A) → Least bs → Least (insert before a bs)
  insert-Least a [] h = (irreflexive a, tt)
  insert-Least a (b ∷ bs) (h, hs) = elim (Bool-cases (before b a)) [
    | inl e ↦ rw e (h, All-insert before (λ c. before c b ≡ false) a bs (asymmetric b a e) hs)
    | inr e ↦ rw e (irreflexive a, (e, All-not_before a b bs e hs))
  ]

  pub sort-Least : (xs : List A) → Least (sort before xs)
  sort-Least [] = tt
  sort-Least (a ∷ xs) = insert-Least a (sort before xs) (sort-Least xs)
