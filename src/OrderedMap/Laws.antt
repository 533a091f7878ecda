-- ===== src/OrderedMap/Laws.antt =====
-- The laws of the ordered map.
use backtester.Prelude.{
  String, List, [], ◌∷◌, none, some, true, false, if◌then◌else◌, str_eq, ◌≡◌, refl, ap, arith,
  eq_iff, eq_refl, subst, sym, ◌∙◌, Bool-cases, All, inl, inr, ◌⊎◌, All, ◌++◌,
}
use backtester.OrderedMap.{
  OrderedMap, get, has, set, delete, keys, values, modify, map_values, Avoids, Distinct,
}
use mathlib.Core.Option

module _ {ℓ} {V : Type ℓ} where
  pub get-set :
      (k j : String) (v : V) (m : OrderedMap V)
      → get j (set k v m) ≡ (if str_eq k j then some v else get j m)
  unfolding get set
  get-set k j v [] = refl
  get-set k j v ((i, w) ∷ m) = ground (arith, eq_iff k j, eq_iff i k, eq_iff i j, get-set k j v m)

  pub get-modify :
      (k j : String) (f : V → V) (m : OrderedMap V)
      → get j (modify k f m) ≡ (if str_eq k j then Option.map f (get j m) else get j m)
  unfolding get modify
  get-modify k j f [] = ground arith
  get-modify k j f ((i, w) ∷ m) =
      ground (arith, eq_iff k j, eq_iff i k, eq_iff i j, get-modify k j f m)

  pub get-delete_ne :
      (k j : String) (m : OrderedMap V) → str_eq k j ≡ false → get j (delete k m) ≡ get j m
  unfolding get delete
  get-delete_ne k j [] h = refl
  get-delete_ne k j ((i, w) ∷ m) h =
      ground (arith, eq_iff k j, eq_iff i k, eq_iff i j, get-delete_ne k j m h)

  pub get-map_values :
      (k : String) (f : V → V) (m : OrderedMap V) → get k (map_values f m) ≡ Option.map f (get k m)
  unfolding get map_values
  get-map_values k f [] = refl
  get-map_values k f ((i, w) ∷ m) = ground (arith, get-map_values k f m)

  pub keys-modify : (k : String) (f : V → V) (m : OrderedMap V) → keys (modify k f m) ≡ keys m
  unfolding keys modify
  keys-modify k f [] = refl
  keys-modify k f ((i, w) ∷ m) = ground (arith, keys-modify k f m)

  pub keys-map_values : (f : V → V) (m : OrderedMap V) → keys (map_values f m) ≡ keys m
  unfolding keys map_values
  keys-map_values f [] = refl
  keys-map_values f ((i, w) ∷ m) = ap (◌∷◌ i) (keys-map_values f m)

  Avoids-set :
      (j k : String) (v : V) (m : OrderedMap V)
      → str_eq j k ≡ false
      → Avoids j (keys m)
      → Avoids j (keys (set k v m))
  unfolding keys set
  Avoids-set j k v [] h a = (h, tt)
  Avoids-set j k v ((i, w) ∷ m) h (n, a) = ground (arith, Avoids-set j k v m h a)

  pub Distinct-set :
      (k : String) (v : V) (m : OrderedMap V) → Distinct (keys m) → Distinct (keys (set k v m))
  unfolding keys set
  Distinct-set k v [] d = (tt, tt)
  Distinct-set k v ((i, w) ∷ m) (a, d) = ground (arith, Avoids-set i k v m, Distinct-set k v m d)

  Avoids-delete :
      (j k : String) (m : OrderedMap V) → Avoids j (keys m) → Avoids j (keys (delete k m))
  unfolding keys delete
  Avoids-delete j k [] a = tt
  Avoids-delete j k ((i, w) ∷ m) (n, a) = ground (arith, Avoids-delete j k m a)

  pub Distinct-delete :
      (k : String) (m : OrderedMap V) → Distinct (keys m) → Distinct (keys (delete k m))
  unfolding keys delete
  Distinct-delete k [] d = tt
  Distinct-delete k ((i, w) ∷ m) (a, d) =
      ground (arith, Avoids-delete i k m a, Distinct-delete k m d)

  pub get_avoided : (k : String) (m : OrderedMap V) → Avoids k (keys m) → get k m ≡ none
  unfolding keys get
  get_avoided k [] a = refl
  get_avoided k ((i, w) ∷ m) (n, a) = ground (arith, eq_iff i k, eq_iff k i, get_avoided k m a)

  -- With distinct keys a deleted key is gone.
  pub get-delete :
      (k j : String) (m : OrderedMap V)
      → Distinct (keys m)
      → get j (delete k m) ≡ (if str_eq k j then none else get j m)
  unfolding keys get delete
  get-delete k j [] d = ground arith
  get-delete k j ((i, w) ∷ m) (a, d) = elim (Bool-cases (str_eq i k)) [
    | inl hit ↦
        let ik : i ≡ k = (eq_iff i k).0 hit in
        let gone : get k m ≡ none = get_avoided k m (subst (λ x. Avoids x (keys m)) ik a) in
        rw hit (elim (Bool-cases (str_eq k j)) [
          | inl same ↦ rw same (ap (λ x. get x m) (sym ((eq_iff k j).0 same)) ∙ gone)
          | inr other ↦ rw other (ground (arith, eq_iff i j, eq_iff k j))
        ])
    | inr miss ↦
        rw (miss, get) (ground (arith, eq_iff k j, eq_iff i k, eq_iff i j, get-delete k j m d))
  ]

-- Where a key stands among others.
abbrev pub Contains : String → List String → Type 0
Contains k [] = ⊥
Contains k (j ∷ js) = (str_eq j k ≡ true) ⊎ Contains k js

pub Contains-keys {ℓ} :
    {V : Type ℓ} (k : String) (v : V) (m : OrderedMap V) → get k m ≡ some v → Contains k (keys m)
unfolding get keys
Contains-keys k v [] e = cc
Contains-keys k v ((i, w) ∷ m) e = elim (Bool-cases (str_eq i k)) [
  | inl hit ↦ inl hit
  | inr miss ↦ inr (Contains-keys k v m (rw (miss, get) at e))
]

-- What holds of every entry holds of every value.
pub All-values {ℓ κ} :
    {V : Type ℓ} (P : V → Type κ) (m : OrderedMap V)
    → Distinct (keys m)
    → ((k : String) (v : V) → get k m ≡ some v → P v)
    → All P (values m)
unfolding get keys values
All-values P [] d h = tt
All-values P ((i, w) ∷ m) (a, d) h = (
  h i w (rw (eq_refl i)),
  All-values P m d λ k v e. elim (Bool-cases (str_eq i k)) [
    | inl hit ↦
        absurd (cc (get_avoided k m (subst (λ x. Avoids x (keys m)) ((eq_iff i k).0 hit) a), e))
    | inr miss ↦ h k v (rw (miss, get) e)
  ],
)

-- And the other way round.
pub All-values_get {ℓ κ} :
    {V : Type ℓ} (P : V → Type κ) (m : OrderedMap V)
    → All P (values m)
    → (k : String) (v : V) → get k m ≡ some v
    → P v
unfolding get values
All-values_get P [] h k v e = cc
All-values_get P ((i, w) ∷ m) (p, h) k v e = elim (Bool-cases (str_eq i k)) [
  | inl hit ↦ let same : w ≡ v = ground arith in subst P same p
  | inr miss ↦ All-values_get P m h k v (rw (miss, get) at e)
]

-- A new key goes to the end.
pub values-set_new {ℓ} :
    {V : Type ℓ} (k : String) (v : V) (m : OrderedMap V)
    → has k m ≡ false
    → values (set k v m) ≡ values m ++ v ∷ []
unfolding get set values
values-set_new k v [] h = refl
values-set_new k v ((i, w) ∷ m) h = ground (arith, values-set_new k v m)
