-- ===== src/Caches/Sizes.antt =====
-- How `set` and `delete` change the size and the order of a map.
use backtester.Prelude.{◌+◌, ◌≤◌, String, [], ◌∷◌, ◌++◌, none, some, ◌≡◌, refl, arith, length}
use backtester.OrderedMap.{OrderedMap, get, set, delete}

module _ {ℓ} {V : Type ℓ} where
  pub length-set : (k : String) (v : V) (m : OrderedMap V) → length (set k v m) ≤ length m + 1
  unfolding set
  length-set k v [] = omega arith
  length-set k v ((j, w) ∷ m) = ground (arith, length-set k v m)

  pub length-delete : (k : String) (m : OrderedMap V) → length (delete k m) ≤ length m
  unfolding delete
  length-delete k [] = omega arith
  length-delete k ((j, w) ∷ m) = ground (arith, length-delete k m)

  pub length-delete_held :
      (k : String) (v : V) (m : OrderedMap V)
      → get k m ≡ some v
      → length (delete k m) + 1 ≡ length m
  unfolding delete get
  length-delete_held k v [] h = absurd (cc)
  length-delete_held k v ((j, w) ∷ m) h = ground (arith, length-delete_held k v m)

  -- A new key goes to the end.
  pub set_new :
      (k : String) (v : V) (m : OrderedMap V) → get k m ≡ none → set k v m ≡ m ++ (k, v) ∷ []
  unfolding set get
  set_new k v [] h = refl
  set_new k v ((j, w) ∷ m) h = ground (arith, set_new k v m)

  pub length-set_new :
      (k : String) (v : V) (m : OrderedMap V) → get k m ≡ none → length (set k v m) ≡ length m + 1
  unfolding set get
  length-set_new k v [] h = omega arith
  length-set_new k v ((j, w) ∷ m) h = ground (arith, length-set_new k v m)
