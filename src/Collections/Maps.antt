-- ===== src/Collections/Maps.antt =====
-- Laws of maps, and of what SerializationHelpers.ts stores.
use mathlib.Core.Path.{subst}
use mathlib.Core.List.{append-nil, append_assoc}
use vscode_dotnet_runtime.Prelude.{
  ◌≡◌, refl, sym, ap, ◌∙◌, false, Option, none, some, List, [], ◌∷◌, ◌++◌, map, arith,
  if◌then◌else◌, All,
}
use vscode_dotnet_runtime.Text.{Text, ◌===◌, ===_iff}
use vscode_dotnet_runtime.Collections.{
  has, get, put, delete, StoredSets, MapOfSets, new_set, values_of, sanitized, serialize_from,
  serialize_map_of_sets, deserialize_from, deserialize_map_of_sets,
}
use vscode_dotnet_runtime.Collections.Sets.{
  Distinct, Apart, Apart-last, Apart-nil, add_all-append, add_all-Distinct,
}

module _ {ℓ} {V : Type ℓ} where
  abbrev pub keys : List (Text × V) → List Text
  keys m = map (λ e. e.0) m

  pub get-put :
      (k j : Text) (v : V) (m : List (Text × V))
      → get j (put k v m) ≡ (if k === j then some v else get j m)
  unfolding get put
  get-put k j v [] = refl
  get-put k j v (e ∷ m) = ground (arith, ===_iff k j, ===_iff e.0 k, ===_iff e.0 j, get-put k j v m)

  pub get-delete :
      (k j : Text) (m : List (Text × V)) → get j (delete k m) ≡ (if k === j then none else get j m)
  unfolding get delete
  get-delete k j [] = ground arith
  get-delete k j (e ∷ m) =
      ground (arith, ===_iff k j, ===_iff e.0 k, ===_iff e.0 j, get-delete k j m)

  pub has-keys : (k : Text) (m : List (Text × V)) → get k m ≡ none → has k (keys m) ≡ false
  unfolding get has
  has-keys k [] h = refl
  has-keys k (e ∷ m) h = ground (arith, has-keys k m)

  pub get_of_not-has : (k : Text) (m : List (Text × V)) → has k (keys m) ≡ false → get k m ≡ none
  unfolding get has
  get_of_not-has k [] h = refl
  get_of_not-has k (e ∷ m) h = ground (arith, get_of_not-has k m)

  pub put_new :
      (k : Text) (v : V) (m : List (Text × V))
      → has k (keys m) ≡ false
      → put k v m ≡ m ++ (k, v) ∷ []
  unfolding put has
  put_new k v [] h = refl
  put_new k v (e ∷ m) h = ground (arith, put_new k v m)

  has-keys-put :
      (k j : Text) (v : V) (m : List (Text × V))
      → k === j ≡ false
      → has j (keys (put k v m)) ≡ has j (keys m)
  unfolding put has
  has-keys-put k j v [] h = ground arith
  has-keys-put k j v (e ∷ m) h = ground (arith, has-keys-put k j v m, ===_iff e.0 k)

  pub put-Distinct :
      (k : Text) (v : V) (m : List (Text × V)) → Distinct (keys m) → Distinct (keys (put k v m))
  unfolding put has
  put-Distinct k v [] d = (refl, tt)
  put-Distinct k v (e ∷ m) d =
      ground (arith, put-Distinct k v m d.1, has-keys-put k e.0 v m, ===_iff e.0 k, ===_iff k e.0)

  keys-append : (m n : List (Text × V)) → keys (m ++ n) ≡ keys m ++ keys n
  keys-append [] n = refl
  keys-append (e ∷ m) n = ap (◌∷◌ e.0) (keys-append m n)

pub put-values :
    (k : Text) (v : List Text) (m : MapOfSets)
    → Distinct v
    → All (λ e. Distinct e.1) m
    → All (λ e. Distinct e.1) (put k v m)
unfolding put
put-values k v [] d h = (d, tt)
put-values k v (e ∷ m) d h = ground (arith, put-values k v m d h.1)

-- A map that `serializeMapOfSets` can be given: a key stands once, and so does an element of a set.
pub record IsMapOfSets (m : MapOfSets) : Type 0 where
  pub distinct_keys : Distinct (keys m)
  pub distinct_values : All (λ e. Distinct e.1) m

abbrev stored : MapOfSets → StoredSets
stored m = map (λ e. (e.0, some (map some e.1))) m

keys-stored : (m : MapOfSets) → keys (stored m) ≡ keys m
keys-stored [] = refl
keys-stored (e ∷ m) = ap (◌∷◌ e.0) (keys-stored m)

serialize_from-append :
    (obj : StoredSets) (m : MapOfSets)
    → Apart (keys obj) (keys m)
    → Distinct (keys m)
    → serialize_from obj m ≡ obj ++ stored m
unfolding serialize_from
serialize_from-append obj [] h d = sym (append-nil obj)
serialize_from-append obj (e ∷ m) h d = rw (put_new e.0 (some (map some e.1)) obj h.0) (
    (serialize_from-append (obj ++ (e.0, some (map some e.1)) ∷ []) m
      (subst (λ ks. Apart ks (keys m)) (sym (keys-append obj ((e.0, some (map some e.1)) ∷ [])))
        (Apart-last e.0 (keys obj) (keys m) h.1 d.0))
      d.1)
    ∙ append_assoc obj ((e.0, some (map some e.1)) ∷ []) (stored m))

sanitized-some : (xs : List Text) → sanitized (map some xs) ≡ xs
unfolding sanitized
sanitized-some [] = refl
sanitized-some (x ∷ xs) = ap (◌∷◌ x) (sanitized-some xs)

deserialize_from-append :
    (acc m : MapOfSets)
    → Apart (keys acc) (keys m)
    → Distinct (keys m)
    → All (λ e. Distinct e.1) m
    → deserialize_from acc (stored m) ≡ acc ++ m
unfolding deserialize_from
deserialize_from-append acc [] h d v = sym (append-nil acc)
deserialize_from-append acc (e ∷ m) h d v =
    ap (λ v. deserialize_from (put e.0 v acc) (stored m))
      (ap new_set (sanitized-some e.1) ∙ add_all-append [] e.1 (Apart-nil e.1) v.0)
    ∙ ap (λ a. deserialize_from a (stored m)) (put_new e.0 e.1 acc h.0)
    ∙ deserialize_from-append (acc ++ (e.0, e.1) ∷ []) m
        (subst (λ ks. Apart ks (keys m)) (sym (keys-append acc ((e.0, e.1) ∷ [])))
          (Apart-last e.0 (keys acc) (keys m) h.1 d.0))
        d.1 v.1
    ∙ append_assoc acc (e ∷ []) m

-- A map of sets that is stored as a list of entries, which a plain object is for ids of sessions, and
-- is read again is the same map, entries and elements in order.
pub deserialize-serialize :
    (m : MapOfSets) → IsMapOfSets m → deserialize_map_of_sets (some (serialize_map_of_sets m)) ≡ m
unfolding deserialize_map_of_sets serialize_map_of_sets
deserialize-serialize m h =
    rw (serialize_from-append [] m (Apart-nil (keys m)) h.distinct_keys)
      (deserialize_from-append [] m (Apart-nil (keys m)) h.distinct_keys h.distinct_values)

deserialize_from-IsMapOfSets :
    (acc : MapOfSets) (obj : StoredSets) → IsMapOfSets acc → IsMapOfSets (deserialize_from acc obj)
unfolding deserialize_from
deserialize_from-IsMapOfSets acc [] h = h
deserialize_from-IsMapOfSets acc ((k, values) ∷ obj) h =
    let v = new_set (sanitized (values_of values)) in
    deserialize_from-IsMapOfSets (put k v acc) obj (record {
      distinct_keys = put-Distinct k v acc h.distinct_keys;
      distinct_values =
          put-values k v acc (add_all-Distinct [] (sanitized (values_of values)) tt)
            h.distinct_values;
    })

-- Whatever is stored, what is read back is a map of sets.
pub deserialize-IsMapOfSets : (obj : Option StoredSets) → IsMapOfSets (deserialize_map_of_sets obj)
unfolding deserialize_map_of_sets
deserialize-IsMapOfSets none = record { distinct_keys = tt; distinct_values = tt }
deserialize-IsMapOfSets (some obj) =
    deserialize_from-IsMapOfSets [] obj (record { distinct_keys = tt; distinct_values = tt })
