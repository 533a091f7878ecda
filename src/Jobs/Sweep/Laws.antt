-- ===== src/Jobs/Sweep/Laws.antt =====
-- What a sweep deletes, and what it keeps.
use backtester.Prelude.{
  ℕ, zero, suc, ◌≤◌, String, List, [], ◌∷◌, some, true, false, ◌≡◌, refl, sym, ap, ◌∙◌, arith, inl,
  inr, Bool-cases, All, All-sort, filter, take, length, str_eq, eq_iff, ltb,
}
use backtester.OrderedMap.{OrderedMap, get, keys, values, delete, Distinct}
use backtester.OrderedMap.Laws.{get-delete, Distinct-delete, All-values}
use backtester.Jobs.Sweep.{is_old, expired_batch, delete_all, sweep}

All-take {ℓ κ} : {A : Type ℓ} (P : A → Type κ) (n : ℕ) (xs : List A) → All P xs → All P (take n xs)
All-take P zero xs h = tt
All-take P (suc n) [] h = tt
All-take P (suc n) (x ∷ xs) (p, h) = (p, All-take P n xs h)

length-take-le {ℓ} : {A : Type ℓ} (n : ℕ) (xs : List A) → length (take n xs) ≤ n
length-take-le zero xs = omega arith
length-take-le (suc n) [] = omega arith
length-take-le (suc n) (x ∷ xs) = omega (arith, length-take-le n xs)

module _ {ℓ} {V : Type ℓ} (key : V → String) (stamp : V → ℕ) where
  abbrev pub IsKeyed : OrderedMap V → Type ℓ
  IsKeyed rows = (k : String) (r : V) → get k rows ≡ some r → key r ≡ k

  delete_all-kept :
      (batch : List V) (rows : OrderedMap V) (k : String)
      → Distinct (keys rows)
      → All (λ r. str_eq (key r) k ≡ false) batch
      → get k (delete_all key stamp batch rows) ≡ get k rows
  delete_all-kept [] rows k d a = refl
  delete_all-kept (r ∷ batch) rows k d (n, a) =
      delete_all-kept batch (delete (key r) rows) k (Distinct-delete (key r) rows d) a
      ∙ rw (get-delete (key r) k rows d, n) refl

  -- A row that is not old stays, in any sweep.
  pub get-sweep_kept :
      (rows : OrderedMap V) (now older_than limit : ℕ) (k : String) (r : V)
      → Distinct (keys rows)
      → IsKeyed rows
      → get k rows ≡ some r
      → is_old key stamp now older_than r ≡ false
      → get k (sweep key stamp rows now older_than limit).0 ≡ some r
  unfolding sweep
  get-sweep_kept rows now older_than limit k r d keyed held young =
      delete_all-kept (expired_batch key stamp rows now older_than limit) rows k d (
        All-take _ limit _
          (All-sort (λ a b. ltb (stamp a) (stamp b)) _ _ (old_elsewhere (values rows) all_held)))
      ∙ held
    where
      all_held : All (λ v. get (key v) rows ≡ some v) (values rows)
      all_held = All-values _ rows d λ j v e. ap (λ x. get x rows) (keyed j v e) ∙ e

      elsewhere :
          (v : V)
          → get (key v) rows ≡ some v
          → is_old key stamp now older_than v ≡ true
          → str_eq (key v) k ≡ false
      elsewhere v h old = elim (Bool-cases (str_eq (key v) k)) [
        | inr other ↦ other
        | inl same ↦
            let i : key v ≡ k = (eq_iff (key v) k).0 same in
            let e : some v ≡ some r = sym h ∙ ap (λ x. get x rows) i ∙ held in
            let vr : v ≡ r = cc in absurd (cc (old, ap (is_old key stamp now older_than) vr, young))
      ]

      old_elsewhere :
          (vs : List V)
          → All (λ v. get (key v) rows ≡ some v) vs
          → All (λ v. str_eq (key v) k ≡ false) (filter (is_old key stamp now older_than) vs)
      old_elsewhere [] h = tt
      old_elsewhere (v ∷ vs) (h, hs) = elim (Bool-cases (is_old key stamp now older_than v)) [
        | inr fresh ↦ rw (fresh, filter) (old_elsewhere vs hs)
        | inl old ↦ rw (old, filter) (elsewhere v h old, old_elsewhere vs hs)
      ]

  -- A sweep deletes no more than its limit.
  pub sweep-le :
      (rows : OrderedMap V) (now older_than limit : ℕ)
      → (sweep key stamp rows now older_than limit).1 ≤ limit
  unfolding sweep
  sweep-le rows now older_than limit = length-take-le limit _

  delete_all-Distinct :
      (batch : List V) (rows : OrderedMap V)
      → Distinct (keys rows)
      → Distinct (keys (delete_all key stamp batch rows))
  delete_all-Distinct [] rows d = d
  delete_all-Distinct (r ∷ batch) rows d =
      delete_all-Distinct batch (delete (key r) rows) (Distinct-delete (key r) rows d)

  pub delete-IsKeyed :
      (k : String) (rows : OrderedMap V)
      → Distinct (keys rows)
      → IsKeyed rows
      → IsKeyed (delete k rows)
  delete-IsKeyed k rows d h j r e = h j r (ground (arith, get-delete k j rows d))

  delete_all-IsKeyed :
      (batch : List V) (rows : OrderedMap V)
      → Distinct (keys rows)
      → IsKeyed rows
      → IsKeyed (delete_all key stamp batch rows)
  delete_all-IsKeyed [] rows d h = h
  delete_all-IsKeyed (r ∷ batch) rows d h =
      delete_all-IsKeyed batch (delete (key r) rows) (Distinct-delete (key r) rows d)
        (delete-IsKeyed (key r) rows d h)

  module _ (rows : OrderedMap V) (now older_than limit : ℕ) (d : Distinct (keys rows)) where
    pub sweep-Distinct : Distinct (keys (sweep key stamp rows now older_than limit).0)
    unfolding sweep
    sweep-Distinct = delete_all-Distinct (expired_batch key stamp rows now older_than limit) rows d

    pub sweep-IsKeyed : IsKeyed rows → IsKeyed (sweep key stamp rows now older_than limit).0
    unfolding sweep
    sweep-IsKeyed h =
        delete_all-IsKeyed (expired_batch key stamp rows now older_than limit) rows d h
