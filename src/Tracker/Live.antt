-- ===== src/Tracker/Live.antt =====
-- The sessions as a map from session ids to the executables in use, and when an executable has no
-- live dependents.
use vscode_dotnet_runtime.Prelude.{
  ℕ, suc, ◌≤◌, ◌≡◌, refl, ap, ◌∙◌, Bool, true, false, ◌&&◌, not, none, some, List, [], ◌∷◌, arith,
  if◌then◌else◌, All,
}
use vscode_dotnet_runtime.Text.{Text, ◌===◌, ===_iff}
use vscode_dotnet_runtime.Collections.{MapOfSets, has, add, get, put, delete, serialize_map_of_sets}
use vscode_dotnet_runtime.Collections.Sets.{Distinct, add-Distinct}
use vscode_dotnet_runtime.Collections.Maps.{
  keys, get-put, get-delete, get_of_not-has, put-Distinct, put-values, IsMapOfSets,
  deserialize-serialize, deserialize-IsMapOfSets,
}
use vscode_dotnet_runtime.Tracker.State.{ExtensionState}
use vscode_dotnet_runtime.Tracker.Sessions.{
  read_sessions, paths_or_none, mark_install_as_in_use_with_install_lock, remove_current_session,
  prune_from, prune_stale_sessions,
}

pub read-IsMapOfSets : (s : ExtensionState) → IsMapOfSets (read_sessions s)
unfolding read_sessions
read-IsMapOfSets s = deserialize-IsMapOfSets (some s.sessions)

abbrev pub with_sessions : MapOfSets → ExtensionState → ExtensionState
with_sessions m s = record s { sessions = serialize_map_of_sets m }

pub read-with_sessions :
    (m : MapOfSets) (s : ExtensionState) → IsMapOfSets m → read_sessions (with_sessions m s) ≡ m
unfolding read_sessions
read-with_sessions m s h = deserialize-serialize m h

has-delete :
    (k j : Text) (m : MapOfSets) → has j (keys m) ≡ false → has j (keys (delete k m)) ≡ false
unfolding has delete
has-delete k j [] h = refl
has-delete k j (e ∷ m) h = ground (arith, has-delete k j m)

delete-Distinct : (k : Text) (m : MapOfSets) → Distinct (keys m) → Distinct (keys (delete k m))
unfolding delete
delete-Distinct k [] d = tt
delete-Distinct k (e ∷ m) d = ground (arith, delete-Distinct k m d.1, has-delete k e.0 m)

delete-values :
    (k : Text) (m : MapOfSets) → All (λ e. Distinct e.1) m → All (λ e. Distinct e.1) (delete k m)
unfolding delete
delete-values k [] h = tt
delete-values k (e ∷ m) h = ground (arith, delete-values k m h.1)

pub delete-IsMapOfSets : (k : Text) (m : MapOfSets) → IsMapOfSets m → IsMapOfSets (delete k m)
delete-IsMapOfSets k m h = record {
  distinct_keys = delete-Distinct k m h.distinct_keys;
  distinct_values = delete-values k m h.distinct_values;
}

delete_if-IsMapOfSets :
    (b : Bool) (k : Text) (m : MapOfSets)
    → IsMapOfSets m
    → IsMapOfSets (if b then delete k m else m)
delete_if-IsMapOfSets true k m h = delete-IsMapOfSets k m h
delete_if-IsMapOfSets false k m h = h

get-values :
    (k : Text) (m : MapOfSets) → All (λ e. Distinct e.1) m → Distinct (paths_or_none (get k m))
unfolding get
get-values k [] h = tt
get-values k (e ∷ m) h = ground (arith, get-values k m h.1)

-- Marking an executable adds it to the set of the session and to no other.
pub mark_sessions :
    (exe id j : Text) (s : ExtensionState)
    → get j (read_sessions (mark_install_as_in_use_with_install_lock exe id s)) ≡ (
        if id === j
        then some (add exe (paths_or_none (get id (read_sessions s))))
        else get j (read_sessions s))
unfolding mark_install_as_in_use_with_install_lock
mark_sessions exe id j s =
    let m = read_sessions s in
    let h = read-IsMapOfSets s in
    let active = add exe (paths_or_none (get id m)) in
    ap (get j) (
      read-with_sessions (put id active m) s (record {
        distinct_keys = put-Distinct id active m h.distinct_keys;
        distinct_values =
            put-values id active m
              (add-Distinct exe (paths_or_none (get id m)) (get-values id m h.distinct_values))
              h.distinct_values;
      }))
    ∙ get-put id j active m

module _ (this_session : Text) where
  -- A session that ends takes its own entry out and no other.
  pub remove_current_sessions :
      (j : Text) (s : ExtensionState)
      → get j (read_sessions (remove_current_session this_session s))
        ≡ (if this_session === j then none else get j (read_sessions s))
  unfolding remove_current_session
  remove_current_sessions j s = ground (
    arith,
    ===_iff this_session j,
    ap (get j) (
        read-with_sessions (delete this_session (read_sessions s)) s
          (delete-IsMapOfSets this_session (read_sessions s) (read-IsMapOfSets s))),
    get-delete this_session j (read_sessions s),
  )

  module _ (is_session_dead : Text → Bool) where
    abbrev pub is_stale : Text → Bool
    is_stale id = not (id === this_session) && is_session_dead id

    prune_from-get :
        (j : Text) (ids : List Text) (m : MapOfSets) (n : ℕ)
        → get j (prune_from this_session is_session_dead ids m n).0
          ≡ (if has j ids && is_stale j then none else get j m)
    unfolding prune_from has
    prune_from-get j [] m n = refl
    prune_from-get j (id ∷ ids) m n = ground (
      arith,
      prune_from-get j ids (delete id m) (suc n),
      prune_from-get j ids m n,
      get-delete id j m,
      ===_iff id j,
      ===_iff id this_session,
      ===_iff j this_session,
    )

    prune_from-le :
        (ids : List Text) (m : MapOfSets) (n : ℕ)
        → n ≤ (prune_from this_session is_session_dead ids m n).1
    unfolding prune_from
    prune_from-le [] m n = omega arith
    prune_from-le (id ∷ ids) m n =
        ground (arith, prune_from-le ids (delete id m) (suc n), prune_from-le ids m n)

    prune_from_none :
        (ids : List Text) (m : MapOfSets) (n : ℕ)
        → (prune_from this_session is_session_dead ids m n).1 ≡ n
        → (prune_from this_session is_session_dead ids m n).0 ≡ m
    unfolding prune_from
    prune_from_none [] m n h = refl
    prune_from_none (id ∷ ids) m n h =
        ground (arith, prune_from-le ids (delete id m) (suc n), prune_from_none ids m n)

    prune_from-IsMapOfSets :
        (ids : List Text) (m : MapOfSets) (n : ℕ)
        → IsMapOfSets m
        → IsMapOfSets (prune_from this_session is_session_dead ids m n).0
    unfolding prune_from
    prune_from-IsMapOfSets [] m n h = h
    prune_from-IsMapOfSets (id ∷ ids) m n h =
        prune_from-IsMapOfSets ids (if is_stale id then delete id m else m)
          (if is_stale id then suc n else n) (delete_if-IsMapOfSets (is_stale id) id m h)

    -- Pruning takes out exactly the other sessions that are dead: every session that is alive, and
    -- this one, keeps its executables.
    pub prune_sessions :
        (j : Text) (s : ExtensionState)
        → get j (read_sessions (prune_stale_sessions this_session is_session_dead s))
          ≡ (if is_stale j then none else get j (read_sessions s))
    unfolding prune_stale_sessions
    prune_sessions j s =
        let m = read_sessions s in
        let pruned = prune_from this_session is_session_dead (keys m) m 0 in
        ground (
          arith,
          prune_from-get j (keys m) m 0,
          prune_from_none (keys m) m 0,
          get_of_not-has j m,
          ap (get j) (
              read-with_sessions pruned.0 s
                (prune_from-IsMapOfSets (keys m) m 0 (read-IsMapOfSets s))),
        )
