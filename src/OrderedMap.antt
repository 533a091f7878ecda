-- ===== src/OrderedMap.antt =====
-- The built-in `Map` with text keys: an association list in insertion order. `set` on a key that
-- is present keeps its position; `delete` removes the entry.
pub mod Laws
use backtester.Prelude.{
  String, List, [], ◌∷◌, Option, none, some, Bool, if◌then◌else◌, str_eq, is_some, ◌≡◌, false,
}

abbrev pub OrderedMap {ℓ} : Type ℓ → Type ℓ
OrderedMap V = List (String × V)

module _ {ℓ} {V : Type ℓ} where
  unfoldable pub get : String → OrderedMap V → Option V
  get k [] = none
  get k ((j, v) ∷ m) = if str_eq j k then some v else get k m

  abbrev pub has : String → OrderedMap V → Bool
  has k m = is_some (get k m)

  unfoldable pub set : String → V → OrderedMap V → OrderedMap V
  set k v [] = (k, v) ∷ []
  set k v ((j, w) ∷ m) = if str_eq j k then (j, v) ∷ m else (j, w) ∷ set k v m

  unfoldable pub delete : String → OrderedMap V → OrderedMap V
  delete k [] = []
  delete k ((j, w) ∷ m) = if str_eq j k then m else (j, w) ∷ delete k m

  unfoldable pub keys : OrderedMap V → List String
  keys [] = []
  keys ((k, v) ∷ m) = k ∷ keys m

  unfoldable pub values : OrderedMap V → List V
  values [] = []
  values ((k, v) ∷ m) = v ∷ values m

  -- An assignment to a field of the object that the map holds under a key.
  unfoldable pub modify : String → (V → V) → OrderedMap V → OrderedMap V
  modify k f [] = []
  modify k f ((j, w) ∷ m) = if str_eq j k then (j, f w) ∷ m else (j, w) ∷ modify k f m

  -- A loop over `values()` that assigns to the fields of each object.
  unfoldable pub map_values : (V → V) → OrderedMap V → OrderedMap V
  map_values f [] = []
  map_values f ((k, v) ∷ m) = (k, f v) ∷ map_values f m

-- No key stands twice.
abbrev pub Avoids : String → List String → Type 0
Avoids k [] = Unit {0}
Avoids k (j ∷ js) = (str_eq k j ≡ false) × Avoids k js

abbrev pub Distinct : List String → Type 0
Distinct [] = Unit {0}
Distinct (k ∷ ks) = Avoids k ks × Distinct ks
