-- ===== src/Collections.antt =====
-- JavaScript's `Set` and `Map` as lists in insertion order, and
-- vscode-dotnet-runtime-library/src/Utils/SerializationHelpers.ts, which stores a map of sets as a
-- plain object. The keys are ids of sessions, which begin with `session-`: a plain object lists such
-- keys in insertion order, as the list of entries here does, while it would list array indices first
-- and would lose the key `__proto__`; other keys are outside of the model.
pub mod Maps
pub mod Sets
use vscode_dotnet_runtime.Prelude.{
  Bool, true, false, ◌||◌, not, Option, none, some, List, [], ◌∷◌, ◌++◌, map, if◌then◌else◌, keep,
  any_of,
}
use vscode_dotnet_runtime.Text.{Text, ◌===◌}

-- A set of texts: every element once.
unfoldable pub has : Text → List Text → Bool
has a [] = false
has a (x ∷ xs) = x === a || has a xs

unfoldable pub add : Text → List Text → List Text
unfolding has
add a xs = if has a xs then xs else xs ++ a ∷ []

-- `new Set(values)`, behind the elements that it has already.
unfoldable pub add_all : List Text → List Text → List Text
unfolding add
add_all xs [] = xs
add_all xs (a ∷ as') = add_all (add a xs) as'

abbrev pub new_set : List Text → List Text
new_set values = add_all [] values

module _ {ℓ} {V : Type ℓ} where
  -- `map.get(k)`
  unfoldable pub get : Text → List (Text × V) → Option V
  get k [] = none
  get k ((j, v) ∷ m) = if j === k then some v else get k m

  -- `map.set(k, v)`, and `obj[k] = v`: a new key comes last.
  unfoldable pub put : Text → V → List (Text × V) → List (Text × V)
  put k v [] = (k, v) ∷ []
  put k v ((j, w) ∷ m) = let rest = put k v m in if j === k then (j, v) ∷ m else (j, w) ∷ rest

  -- `map.delete(k)`
  unfoldable pub delete : Text → List (Text × V) → List (Text × V)
  delete k m = keep (λ e. not (e.0 === k)) m

-- A value of a stored array: `none` is null or undefined.
abbrev pub StoredValue : Type 0
StoredValue = Option Text

-- `Record<string, V[]>`: `none` stands for a value that is missing.
abbrev pub StoredSets : Type 0
StoredSets = List (Text × Option (List StoredValue))

abbrev pub MapOfSets : Type 0
MapOfSets = List (Text × List Text)

-- The loop of `serializeMapOfSets` over the entries, from the object that it has so far.
unfoldable pub serialize_from : StoredSets → MapOfSets → StoredSets
unfolding put
serialize_from obj [] = obj
serialize_from obj ((key, value) ∷ m) = serialize_from (put key (some (map some value)) obj) m

unfoldable pub serialize_map_of_sets : MapOfSets → StoredSets
unfolding serialize_from
serialize_map_of_sets m = serialize_from [] m

-- The values that are neither null nor undefined.
unfoldable pub sanitized : List StoredValue → List Text
sanitized [] = []
sanitized (none ∷ vs) = sanitized vs
sanitized (some v ∷ vs) = v ∷ sanitized vs

abbrev values_of : Option (List StoredValue) → List StoredValue
values_of none = []
values_of (some vs) = vs

unfoldable pub deserialize_from : MapOfSets → StoredSets → MapOfSets
unfolding put sanitized add_all
deserialize_from m [] = m
deserialize_from m ((key, values) ∷ obj) =
    deserialize_from (put key (new_set (sanitized (values_of values))) m) obj

-- `none` is an object that is missing.
unfoldable pub deserialize_map_of_sets : Option StoredSets → MapOfSets
unfolding deserialize_from
deserialize_map_of_sets none = []
deserialize_map_of_sets (some obj) = deserialize_from [] obj
