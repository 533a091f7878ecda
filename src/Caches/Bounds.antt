-- ===== src/Caches/Bounds.antt =====
-- The order in which the caches forget, and their bounds.
use backtester.Prelude.{
  ℕ, ◌+◌, ◌≤◌, String, List, [], ◌∷◌, ◌++◌, Option, none, some, true, false, ◌≡◌, refl, ap, arith,
  inl, inr, Bool-cases, Option-cases, str_eq, eq_refl, length, if◌then◌else◌, ◌⊎◌, ltb, leb, ◌==◌,
}
use backtester.OrderedMap.{OrderedMap, get, set, delete, keys, Distinct}
use backtester.OrderedMap.Laws.{get-delete, get-set, Distinct-set, Distinct-delete}
use backtester.Caches.Sizes.{length-set, length-delete_held, set_new}
use backtester.Caches.LruCache.{LruCache, lru_get, lru_set, refreshed, delete_first, promoted}
use backtester.Caches.TapeCache.{
  TapeCache, get_or_build, copied, evicted, last_key, delete_key, on_rejected,
}

abbrev pub tail {ℓ} : {A : Type ℓ} → List A → List A
tail [] = []
tail (x ∷ xs) = xs

module _ {V : Type 0} where
  delete_absent : (k : String) (m : OrderedMap V) → get k m ≡ none → delete k m ≡ m
  unfolding get delete
  delete_absent k [] h = refl
  delete_absent k ((j, w) ∷ m) h = ground (arith, delete_absent k m)

  delete_gone : (k : String) (m : OrderedMap V) → Distinct (keys m) → get k (delete k m) ≡ none
  delete_gone k m d = rw (get-delete k k m d, eq_refl k) refl

  delete_first-tail : (m : OrderedMap V) → delete_first m ≡ tail m
  unfolding delete
  delete_first-tail [] = refl
  delete_first-tail ((k, v) ∷ m) = rw (eq_refl k, delete) refl

  refreshed_lem :
      (m : OrderedMap V) (k : String) (v : V)
      → Distinct (keys m)
      → refreshed m k v ≡ delete k m ++ (k, v) ∷ []
  refreshed_lem m k v d = elim (Option-cases (get k m)) [
    | inl new ↦ rw (new, delete_absent k m new) (set_new k v m new)
    | inr (w, old) ↦ rw old (set_new k v (delete k m) (delete_gone k m d))
  ]

  -- Setting moves the key to the end, and forgets the first key, the one used least recently, if
  -- there is one more than the capacity.
  pub lru_set-order :
      (c : LruCache V) (k : String) (v : V)
      → Distinct (keys c.entries)
      → let used = delete k c.entries ++ (k, v) ∷ [] in
        (lru_set c k v).entries ≡ (if ltb c.capacity (length used) then tail used else used)
  unfolding lru_set
  lru_set-order c k v d =
      rw (refreshed_lem c.entries k v d, delete_first-tail (delete k c.entries ++ (k, v) ∷ [])) refl

  -- A hit returns the value and moves its key to the end; a miss changes nothing.
  pub lru_get-order :
      (c : LruCache V) (k : String)
      → Distinct (keys c.entries)
      → ((get k c.entries ≡ none) × (lru_get c k ≡ (c, none)))
        ⊎ ((v : V) × (get k c.entries ≡ some v)
            × (lru_get c k ≡ (record c { entries = delete k c.entries ++ (k, v) ∷ [] }, some v)))
  unfolding lru_get
  lru_get-order c k d = elim (Option-cases (get k c.entries)) [
    | inl miss ↦ inl (miss, rw (miss, promoted) refl)
    | inr (v, hit) ↦ inr (
      v,
      hit,
      rw (hit, promoted)
          (ap (λ (m : OrderedMap V). (record c { entries = m }, some v))
            (set_new k v (delete k c.entries) (delete_gone k c.entries d))),
    )
  ]

length-copied : (p m : OrderedMap ℕ) → length (copied p m) ≤ length p + length m
length-copied p [] = omega arith
length-copied p ((k, v) ∷ m) = omega (arith, length-copied (set k v p) m, length-set k v p)

get-copied : (k : String) (p m : OrderedMap ℕ) → get k m ≡ none → get k (copied p m) ≡ get k p
unfolding get
get-copied k p [] h = refl
get-copied k p ((j, w) ∷ m) h = ground (arith, get-copied k (set j w p) m, get-set j k w p)

last_held :
    (j : String) (w : ℕ) (m : OrderedMap ℕ)
    → (k : String) × (v : ℕ) × (last_key (keys ((j, w) ∷ m)) ≡ some k)
      × (get k ((j, w) ∷ m) ≡ some v)
unfolding get keys
last_held j w [] = (j, w, refl, rw (eq_refl j) refl)
last_held j w ((i, u) ∷ m) =
    let (k, v, e, h) = last_held i u m in
    elim (Bool-cases (str_eq j k)) [
      | inl same ↦ (k, w, e, rw same refl)
      | inr other ↦ (k, v, e, rw other h)
    ]

length-evicted :
    (max : ℕ) (m : OrderedMap ℕ) → 1 ≤ max → length m ≤ max → length (evicted max m) + 1 ≤ max
length-evicted max [] one h = ground arith
length-evicted max ((j, w) ∷ m) one h =
    let (k, v, e, held) = last_held j w m in
    rw e (ground (arith, length-delete_held k v ((j, w) ∷ m) held))

-- A tape cache that holds no more than its maximum never does.
pub get_or_build-bounded :
    (c : TapeCache) (key : String) (pending : ℕ)
    → length c.entries ≤ c.max_entries
    → length (get_or_build c key pending).0.entries ≤ c.max_entries
unfolding get_or_build
get_or_build-bounded c key pending h = elim (Bool-cases (leb c.max_entries 0)) [
  | inl off ↦ rw off h
  | inr on ↦
      let m = c.entries in
      elim (Option-cases (get key m)) [
        | inl miss ↦
            rw (on, miss)
              (omega (
                arith,
                length-set key pending (evicted c.max_entries m),
                length-evicted c.max_entries m (ground arith) h,
              ))
        | inr (p, hit) ↦
            rw (on, hit)
              (omega (
                arith,
                length-copied (set key p []) (delete key m),
                length-set key p [],
                length-delete_held key p m hit,
              ))
      ]
]

get_or_build_held :
    (c : TapeCache) (key : String) (pending promise : ℕ)
    → 1 ≤ c.max_entries
    → get key c.entries ≡ some promise
    → (get_or_build c key pending).1 ≡ promise
unfolding get_or_build
get_or_build_held c key pending promise one held =
    let on : leb c.max_entries 0 ≡ false = ground arith in rw (on, held) refl

Distinct-copied : (p m : OrderedMap ℕ) → Distinct (keys p) → Distinct (keys (copied p m))
Distinct-copied p [] d = d
Distinct-copied p ((k, v) ∷ m) d = Distinct-copied (set k v p) m (Distinct-set k v p d)

Distinct-delete_key :
    (k : Option String) (m : OrderedMap ℕ) → Distinct (keys m) → Distinct (keys (delete_key k m))
Distinct-delete_key none m d = d
Distinct-delete_key (some k) m d = Distinct-delete k m d

Distinct-evicted :
    (max : ℕ) (m : OrderedMap ℕ) → Distinct (keys m) → Distinct (keys (evicted max m))
Distinct-evicted max m d = elim (Bool-cases (leb max (length m))) [
  | inl full ↦ rw full (Distinct-delete_key (last_key (keys m)) m d)
  | inr room ↦ rw room d
]

-- A call leaves the promise that it returns under its key.
get_or_build_kept :
    (c : TapeCache) (key : String) (pending : ℕ)
    → 1 ≤ c.max_entries
    → Distinct (keys c.entries)
    → let (c', promise) = get_or_build c key pending in
      (c'.max_entries ≡ c.max_entries)
      × (get key c'.entries ≡ some promise)
      × Distinct (keys c'.entries)
unfolding get_or_build keys
get_or_build_kept c key pending one d =
    let on : leb c.max_entries 0 ≡ false = ground arith in
    let m = c.entries in
    elim (Option-cases (get key m)) [
      | inl miss ↦
          rw (on, miss)
            (
              refl,
              rw (get-set key key pending (evicted c.max_entries m), eq_refl key) refl,
              Distinct-set key pending (evicted c.max_entries m)
                  (Distinct-evicted c.max_entries m d),
            )
      | inr (p, hit) ↦
          rw (on, hit)
            (
              refl,
              rw
                  (
                    get-copied key (set key p []) (delete key m)
                        (rw (get-delete key key m d, eq_refl key)),
                    get-set key key p [],
                    eq_refl key,
                  )
                  refl,
              Distinct-copied (set key p []) (delete key m) (Distinct-set key p [] tt),
            )
    ]

get_or_build_missed :
    (c : TapeCache) (key : String) (pending : ℕ)
    → get key c.entries ≡ none
    → (get_or_build c key pending).1 ≡ pending
unfolding get_or_build
get_or_build_missed c key pending missed = elim (Bool-cases (leb c.max_entries 0)) [
  | inl off ↦ rw off refl
  | inr on ↦ rw (on, missed) refl
]

rejected_gone :
    (c : TapeCache) (key : String) (promise : ℕ)
    → get key c.entries ≡ some promise
    → Distinct (keys c.entries)
    → get key (on_rejected c key promise).entries ≡ none
unfolding on_rejected
rejected_gone c key promise held d =
    let same : (promise == promise) ≡ true = ground arith in
    rw (held, same, get-delete key key c.entries d, eq_refl key) refl

-- While caching is not disabled, and if no key stands twice in the cache, the very next call with
-- the same key shares the promise of a call, whether that was a hit or a build; if that promise has
-- been rejected in between, it builds anew.
pub get_or_build_shares :
    (c : TapeCache) (key : String) (pending later : ℕ)
    → 1 ≤ c.max_entries
    → Distinct (keys c.entries)
    → let (c', promise) = get_or_build c key pending in
      ((get_or_build c' key later).1 ≡ promise)
      × ((get_or_build (on_rejected c' key promise) key later).1 ≡ later)
get_or_build_shares c key pending later one d =
    let (c', promise) = get_or_build c key pending in
    let (max, held, d') = get_or_build_kept c key pending one d in
    (
      get_or_build_held c' key later promise (omega (arith, max)) held,
      get_or_build_missed (on_rejected c' key promise) key later
          (rejected_gone c' key promise held d'),
    )
