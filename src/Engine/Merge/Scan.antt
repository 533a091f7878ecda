-- ===== src/Engine/Merge/Scan.antt =====
-- The scan over the heads finds the first of the least ones.
use mathlib.Core.Option as Option
use backtester.Prelude.{
  ℕ, suc, ◌≤◌, ◌<◌, List, [], ◌∷◌, ◌++◌, Option, none, some, ltb, ◌≡◌, refl, ap, sym, subst, ◌∙◌,
  arith, length, All, All-append, inl, inr, Bool-cases,
}
use backtester.Engine.Merge.{better, scan, take_at}

module _ {ℓ} {A : Type ℓ} (key_of : A → ℕ) where
  -- The head of a list, if there is one, passes a bound.
  abbrev pub Above : ℕ → List A → Type 0
  Above k [] = Unit
  Above k (x ∷ xs) = k < key_of x

  abbrev pub AtLeast : ℕ → List A → Type 0
  AtLeast k [] = Unit
  AtLeast k (x ∷ xs) = k ≤ key_of x

  abbrev pub IsNil : List A → Type 0
  IsNil [] = Unit
  IsNil (x ∷ xs) = ⊥

  -- A list whose head is picked: those before it start above it, those after not below it.
  pub record Pick (lists : List (List A)) (p k : ℕ) : Type ℓ where
    pub before : List (List A)
    pub head : A
    pub tail : List A
    pub behind : List (List A)
    pub split : lists ≡ before ++ (head ∷ tail) ∷ behind
    pub place : length before ≡ p
    pub own_key : key_of head ≡ k
    pub above : All (Above k) before
    pub at_least : All (AtLeast k) behind

  abbrev pub Best : List (List A) → Option (ℕ × ℕ) → Type ℓ
  Best lists none = All IsNil lists × Unit {ℓ}
  Best lists (some (p, k)) = Pick lists p k

  nil-Above : (k : ℕ) (lists : List (List A)) → All IsNil lists → All (Above k) lists
  nil-Above k [] h = tt
  nil-Above k ([] ∷ ls) (h, hs) = (tt, nil-Above k ls hs)
  nil-Above k ((x ∷ xs) ∷ ls) (h, hs) = absurd h

  append_assoc : (ls bs cs : List (List A)) → (ls ++ bs) ++ cs ≡ ls ++ (bs ++ cs)
  append_assoc [] bs cs = refl
  append_assoc (a ∷ ls) bs cs = ap (λ r. a ∷ r) (append_assoc ls bs cs)

  extended :
      (seen : List (List A)) (p k : ℕ) (l : List A)
      → Pick seen p k
      → AtLeast k l
      → Pick (seen ++ l ∷ []) p k
  extended seen p k l o h = record {
    before = o.before;
    head = o.head;
    tail = o.tail;
    behind = o.behind ++ l ∷ [];
    split =
        ap (λ r. r ++ l ∷ []) o.split
        ∙ append_assoc o.before ((o.head ∷ o.tail) ∷ o.behind) (l ∷ []);
    place = o.place;
    own_key = o.own_key;
    above = o.above;
    at_least = All-append (AtLeast k) o.behind (l ∷ []) o.at_least (h, tt);
  }

  skip-Best :
      (seen : List (List A)) (best : Option (ℕ × ℕ)) → Best seen best → Best (seen ++ [] ∷ []) best
  skip-Best seen none (h, u) = (All-append IsNil seen ([] ∷ []) h (tt, tt), tt)
  skip-Best seen (some (p, k)) o = extended seen p k [] o tt

  replaced :
      (seen : List (List A)) (x : A) (xs : List A)
      → All (Above (key_of x)) seen
      → Pick (seen ++ (x ∷ xs) ∷ []) (length seen) (key_of x)
  replaced seen x xs h = record {
    before = seen;
    head = x;
    tail = xs;
    behind = [];
    split = refl;
    place = refl;
    own_key = refl;
    above = h;
    at_least = tt;
  }

  Above-trans : (j k : ℕ) (ls : List (List A)) → j < k → All (Above k) ls → All (Above j) ls
  Above-trans j k [] h hs = tt
  Above-trans j k ([] ∷ ls) h (u, hs) = (tt, Above-trans j k ls h hs)
  Above-trans j k ((x ∷ xs) ∷ ls) h (u, hs) = (omega arith, Above-trans j k ls h hs)

  AtLeast-Above : (j k : ℕ) (ls : List (List A)) → j < k → All (AtLeast k) ls → All (Above j) ls
  AtLeast-Above j k [] h hs = tt
  AtLeast-Above j k ([] ∷ ls) h (u, hs) = (tt, AtLeast-Above j k ls h hs)
  AtLeast-Above j k ((x ∷ xs) ∷ ls) h (u, hs) = (omega arith, AtLeast-Above j k ls h hs)

  Pick-Above : (seen : List (List A)) (p k j : ℕ) → Pick seen p k → j < k → All (Above j) seen
  Pick-Above seen p k j o h = subst (All (Above j)) (sym o.split) (
      All-append (Above j) o.before ((o.head ∷ o.tail) ∷ o.behind)
        (Above-trans j k o.before h o.above)
        (subst (λ n. j < n) (sym o.own_key) h, AtLeast-Above j k o.behind h o.at_least))

  better-Best :
      (seen : List (List A)) (x : A) (xs : List A) (best : Option (ℕ × ℕ))
      → Best seen best
      → Best (seen ++ (x ∷ xs) ∷ []) (better key_of (length seen) (key_of x) best)
  better-Best seen x xs none (h, u) = replaced seen x xs (nil-Above (key_of x) seen h)
  better-Best seen x xs (some (p, k)) o = elim (Bool-cases (ltb (key_of x) k)) [
    | inl e ↦ rw e (replaced seen x xs (Pick-Above seen p k (key_of x) o (ground arith)))
    | inr e ↦ rw e (extended seen p k (x ∷ xs) o (ground arith))
  ]

  append-nil : (ls : List (List A)) → ls ++ [] ≡ ls
  append-nil [] = refl
  append-nil (l ∷ ls) = ap (λ r. l ∷ r) (append-nil ls)

  length-snoc : (ls : List (List A)) (l : List A) → length (ls ++ l ∷ []) ≡ suc (length ls)
  length-snoc [] l = refl
  length-snoc (k ∷ ls) l = ap (λ n. suc n) (length-snoc ls l)

  moved :
      (seen : List (List A)) (l : List A) (ls : List (List A)) (best : Option (ℕ × ℕ))
      → Best ((seen ++ l ∷ []) ++ ls) (scan key_of (length (seen ++ l ∷ [])) best ls)
      → Best (seen ++ l ∷ ls) (scan key_of (suc (length seen)) best ls)
  moved seen l ls best o =
      subst (λ n. Best (seen ++ l ∷ ls) (scan key_of n best ls)) (length-snoc seen l)
        (subst (λ r. Best r (scan key_of (length (seen ++ l ∷ [])) best ls))
          (append_assoc seen (l ∷ []) ls) o)

  pub scan-Best :
      (seen ls : List (List A)) (best : Option (ℕ × ℕ))
      → Best seen best
      → Best (seen ++ ls) (scan key_of (length seen) best ls)
  scan-Best seen [] best o = subst (λ r. Best r best) (sym (append-nil seen)) o
  scan-Best seen ([] ∷ ls) best o =
      moved seen [] ls best (scan-Best (seen ++ [] ∷ []) ls best (skip-Best seen best o))
  scan-Best seen ((x ∷ xs) ∷ ls) best o =
      moved seen (x ∷ xs) ls (better key_of (length seen) (key_of x) best) (
        scan-Best (seen ++ (x ∷ xs) ∷ []) ls (better key_of (length seen) (key_of x) best)
          (better-Best seen x xs best o))

module _ {ℓ} {A : Type ℓ} where
  pub take_at-append :
      (pre : List (List A)) (x : A) (xs : List A) (post : List (List A))
      → take_at (length pre) (pre ++ (x ∷ xs) ∷ post) ≡ some (x, pre ++ xs ∷ post)
  take_at-append [] x xs post = refl
  take_at-append (l ∷ pre) x xs post =
      ap (Option.map (λ r. (r.0, l ∷ r.1))) (take_at-append pre x xs post)
