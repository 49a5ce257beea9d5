-- ===== src/Cache.antt =====
-- vscode-dotnet-runtime-library/src/LocalMemoryCacheSingleton.ts: the cache of the results of
-- commands. The package `node-cache` is the parameter `node_cache`, whose time to live is in
-- milliseconds here; `pretty` is the text of a command's root and arguments. The source writes the
-- aliased root into the caller's command; that command is no part of the state.
pub mod Commands
use vscode_dotnet_runtime.Prelude.{
  ℕ, ◌+◌, ◌*◌, Option, none, some, List, [], ◌∷◌, ◌++◌, ltb, ◌==◌, if◌then◌else◌, length, keep,
}
use vscode_dotnet_runtime.Text.{Text, codes, ◌===◌, includes}

-- A command: its root, its arguments, and its options in the order of their sorted keys. A value is
-- its JSON text after the replacement for `env`, `none` where it is undefined.
pub record CacheableCommand : Type 0 where
  pub command_root : Text
  pub command_parts : List Text
  pub options : List (Text × Option Text)
  pub ttl_option : Option ℕ

-- The loop of `cacheableCommandToKey` over the options, `last` being the last index.
unfoldable pub options_from : ℕ → ℕ → List (Text × Option Text) → Text
unfolding ◌===◌
options_from index last [] = []
options_from index last ((k, none) ∷ rest) = options_from (index + 1) last rest
options_from index last ((k, some value) ∷ rest) =
    let more = options_from (index + 1) last rest in
    if k === codes "dotnetInstallToolCacheTtlMs"
    then more
    else codes "\""
      ++ k
      ++ codes "\":"
      ++ value
      ++ (if ltb (index + 1) last then codes "," else [])
      ++ more

unfoldable pub cacheable_command_to_key : (Text → List Text → Text) → CacheableCommand → Text
unfolding options_from
cacheable_command_to_key pretty key =
    pretty key.command_root key.command_parts
    ++ codes "{"
    ++ options_from 0 (length key.options) key.options
    ++ codes "}"

-- `commandRootAliases`: the last alias set for a root stands first.
abbrev pub Aliases : Type 0
Aliases = List (Text × Text)

unfoldable pub aliased : Aliases → Text → Text
unfolding ◌===◌
aliased [] root = root
aliased ((alias, target) ∷ rest) root = if alias === root then target else aliased rest root

-- The package's operations on its store.
pub record NodeCache (C V : Type 0) : Type 0 where
  pub stored_get : Text → C → Option V
  pub stored_set : Text → V → ℕ → C → C
  pub stored_keys : C → List Text
  pub stored_delete : List Text → C → C
  pub stored_clear : C → C

pub record LocalMemoryCache (C : Type 0) : Type 0 where
  pub cache : C
  pub command_root_aliases : Aliases
  pub time_to_live_multiplier : ℕ

abbrev pub ttl_or_default : Option ℕ → ℕ
ttl_or_default none = 5000
ttl_or_default (some ttl) = ttl

module _ {C V : Type 0} (node_cache : NodeCache C V) (pretty : Text → List Text → Text) where
  unfoldable pub put : Text → V → ℕ → LocalMemoryCache C → LocalMemoryCache C
  put key obj ttl_ms s =
      let ttl = ttl_ms * s.time_to_live_multiplier in
      if ttl == 0 then s else record s { cache = node_cache.stored_set key obj ttl s.cache }

  abbrev with_alias : CacheableCommand → LocalMemoryCache C → CacheableCommand
  with_alias key s = record key { command_root = aliased s.command_root_aliases key.command_root }

  unfoldable pub get_command : CacheableCommand → LocalMemoryCache C → Option V
  unfolding aliased cacheable_command_to_key
  get_command key s =
      node_cache.stored_get (cacheable_command_to_key pretty (with_alias key s)) s.cache

  unfoldable pub put_command : CacheableCommand → V → LocalMemoryCache C → LocalMemoryCache C
  unfolding put aliased cacheable_command_to_key
  put_command key obj s =
      put (cacheable_command_to_key pretty (with_alias key s)) obj (ttl_or_default key.ttl_option) s

  unfoldable pub alias_command_as_another_command_root :
      Text → Text → LocalMemoryCache C → LocalMemoryCache C
  alias_command_as_another_command_root alias target s = record s {
    command_root_aliases = (alias, target) ∷ s.command_root_aliases;
  }

  unfoldable pub invalidate : LocalMemoryCache C → LocalMemoryCache C
  invalidate s = record s { cache = node_cache.stored_clear s.cache }

  unfoldable pub invalidate_entries_containing : Text → LocalMemoryCache C → LocalMemoryCache C
  unfolding includes
  invalidate_entries_containing substring s =
      let keys_to_delete = keep (λ k. includes k substring) (node_cache.stored_keys s.cache) in
      if ltb 0 (length keys_to_delete)
      then record s { cache = node_cache.stored_delete keys_to_delete s.cache }
      else s
