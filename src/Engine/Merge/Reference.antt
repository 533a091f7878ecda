-- ===== src/Engine/Merge/Reference.antt =====
-- The full sort, by key and both indices, is the stable sort by key alone.
use backtester.Prelude.{
  ℕ, suc, ◌<◌, List, [], ◌∷◌, ◌++◌, Bool, true, false, ◌&&◌, ◌||◌, ltb, ◌==◌, ◌≡◌, refl, ap, ◌∙◌,
  arith, if◌then◌else◌, map, sort, insert, All, All-append, All-sort,
}
use backtester.Engine.Merge.{
  Tagged, concat_by_symbol, tag_list, tag_lists, before_tagged, full_sort,
}

module _ {ℓ} {A : Type ℓ} where
  abbrev later : Tagged A → Tagged A → Bool
  later a b =
      ltb a.symbol_index b.symbol_index
      || (a.symbol_index == b.symbol_index && ltb a.orig_index b.orig_index)

  abbrev Ordered : List (Tagged A) → Type 0
  Ordered [] = Unit
  Ordered (a ∷ bs) = All (λ b. later a b ≡ true) bs × Ordered bs

  tag_list-All :
      (s i j : ℕ) (x : A) (xs : List A)
      → j < i
      → All
          (λ b. later (record { item = x; symbol_index = s; orig_index = j }) b ≡ true)
          (tag_list s i xs)
  tag_list-All s i j x [] h = tt
  tag_list-All s i j x (y ∷ ys) h = (ground arith, tag_list-All s (suc i) j x ys (omega arith))

  tag_list-All_above :
      (s t i j : ℕ) (x : A) (xs : List A)
      → s < t
      → All
          (λ b. later (record { item = x; symbol_index = s; orig_index = j }) b ≡ true)
          (tag_list t i xs)
  tag_list-All_above s t i j x [] h = tt
  tag_list-All_above s t i j x (y ∷ ys) h = (ground arith, tag_list-All_above s t (suc i) j x ys h)

  tag_lists-All :
      (s t j : ℕ) (x : A) (ls : List (List A))
      → s < t
      → All
          (λ b. later (record { item = x; symbol_index = s; orig_index = j }) b ≡ true)
          (tag_lists t ls)
  tag_lists-All s t j x [] h = tt
  tag_lists-All s t j x (l ∷ ls) h =
      All-append _ (tag_list t 0 l) (tag_lists (suc t) ls) (tag_list-All_above s t 0 j x l h)
        (tag_lists-All s (suc t) j x ls (omega arith))

  Ordered-append :
      (s i : ℕ) (l : List A) (ls : List (List A))
      → Ordered (tag_lists (suc s) ls)
      → Ordered (tag_list s i l ++ tag_lists (suc s) ls)
  Ordered-append s i [] ls o = o
  Ordered-append s i (x ∷ xs) ls o = (
    All-append _ (tag_list s (suc i) xs) (tag_lists (suc s) ls)
        (tag_list-All s (suc i) i x xs (omega arith))
        (tag_lists-All s (suc s) i x ls (omega arith)),
    Ordered-append s (suc i) xs ls o,
  )

  Ordered-tag_lists : (s : ℕ) (ls : List (List A)) → Ordered (tag_lists s ls)
  Ordered-tag_lists s [] = tt
  Ordered-tag_lists s (l ∷ ls) = Ordered-append s 0 l ls (Ordered-tag_lists (suc s) ls)

  items-append :
      (ts bs : List (Tagged A))
      → map (λ t. t.item) (ts ++ bs) ≡ map (λ t. t.item) ts ++ map (λ t. t.item) bs
  items-append [] bs = refl
  items-append (a ∷ ts) bs = ap (λ r. a.item ∷ r) (items-append ts bs)

  items-tag_list : (s i : ℕ) (l : List A) → map (λ t. t.item) (tag_list s i l) ≡ l
  items-tag_list s i [] = refl
  items-tag_list s i (x ∷ xs) = ap (λ r. x ∷ r) (items-tag_list s (suc i) xs)

  items-tag_lists :
      (s : ℕ) (ls : List (List A)) → map (λ t. t.item) (tag_lists s ls) ≡ concat_by_symbol ls
  items-tag_lists s [] = refl
  items-tag_lists s (l ∷ ls) =
      items-append (tag_list s 0 l) (tag_lists (suc s) ls)
      ∙ ap (λ r. r ++ map (λ t. t.item) (tag_lists (suc s) ls)) (items-tag_list s 0 l)
      ∙ ap (λ r. l ++ r) (items-tag_lists (suc s) ls)

module _ {ℓ} {A : Type ℓ} (key_of : A → ℕ) where
  abbrev pub before_key : A → A → Bool
  before_key a b = ltb (key_of a) (key_of b)

  same_order :
      (a b : Tagged A) → later a b ≡ true → before_tagged key_of b a ≡ before_key b.item a.item
  same_order a b h = ground arith

  items-insert :
      (a : Tagged A) (bs : List (Tagged A))
      → All (λ b. later a b ≡ true) bs
      → map (λ t. t.item) (insert (before_tagged key_of) a bs)
        ≡ insert before_key a.item (map (λ t. t.item) bs)
  items-insert a [] h = refl
  items-insert a (b ∷ bs) (h, hs) =
      both_ways (before_tagged key_of b a) (items-insert a bs hs)
      ∙ ap
          (λ c.
            if c
            then b.item ∷ insert before_key a.item (map (λ t. t.item) bs)
            else a.item ∷ b.item ∷ map (λ t. t.item) bs)
          (same_order a b h)
    where
      both_ways :
          (c : Bool)
          → map (λ t. t.item) (insert (before_tagged key_of) a bs)
            ≡ insert before_key a.item (map (λ t. t.item) bs)
          → map (λ t. t.item) (if c then b ∷ insert (before_tagged key_of) a bs else a ∷ b ∷ bs) ≡ (
              if c
              then b.item ∷ insert before_key a.item (map (λ t. t.item) bs)
              else a.item ∷ b.item ∷ map (λ t. t.item) bs)
      both_ways true e = ap (λ r. b.item ∷ r) e
      both_ways false e = refl

  items-sort :
      (ts : List (Tagged A))
      → Ordered ts
      → map (λ t. t.item) (sort (before_tagged key_of) ts) ≡ sort before_key (map (λ t. t.item) ts)
  items-sort [] o = refl
  items-sort (a ∷ ts) (h, o) =
      items-insert a (sort (before_tagged key_of) ts)
        (All-sort (before_tagged key_of) (λ b. later a b ≡ true) ts h)
      ∙ ap (insert before_key a.item) (items-sort ts o)

  pub full_sort-sort :
      (lists : List (List A)) → full_sort key_of lists ≡ sort before_key (concat_by_symbol lists)
  unfolding full_sort
  full_sort-sort lists =
      items-sort (tag_lists 0 lists) (Ordered-tag_lists 0 lists)
      ∙ ap (sort before_key) (items-tag_lists 0 lists)
