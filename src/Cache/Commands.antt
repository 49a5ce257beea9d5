-- ===== src/Cache/Commands.antt =====
-- LocalMemoryCacheSingleton.ts: what a command that was cached is answered with, also under another
-- root that was made an alias.
use vscode_dotnet_runtime.Prelude.{ℕ, ◌*◌, ◌≡◌, ◌≢◌, some, List, arith}
use vscode_dotnet_runtime.Text.{Text, ===_self}
use vscode_dotnet_runtime.Cache.{
  CacheableCommand, cacheable_command_to_key, aliased, NodeCache, LocalMemoryCache, put,
  get_command, ttl_or_default, put_command, alias_command_as_another_command_root,
}

module _ {C V : Type 0} (node_cache : NodeCache C V) (pretty : Text → List Text → Text)
    (get-set : (key : Text) (obj : V) (ttl : ℕ) (c : C)
      → node_cache.stored_get key (node_cache.stored_set key obj ttl c) ≡ some obj) where
  put-cache :
      (key : Text) (obj : V) (ttl_ms : ℕ) (s : LocalMemoryCache C)
      → ttl_ms * s.time_to_live_multiplier ≢ 0
      → put node_cache pretty key obj ttl_ms s ≡ record s {
        cache = node_cache.stored_set key obj (ttl_ms * s.time_to_live_multiplier) s.cache;
      }
  unfolding put
  put-cache key obj ttl_ms s ne = ground arith

  -- Where the time to live of a command is not 0 and `node-cache` gives back what it was just given,
  -- a command that was just cached is answered with that result.
  pub get-put_command :
      (key : CacheableCommand) (obj : V) (s : LocalMemoryCache C)
      → ttl_or_default key.ttl_option * s.time_to_live_multiplier ≢ 0
      → get_command node_cache pretty key (put_command node_cache pretty key obj s) ≡ some obj
  unfolding get_command put_command
  get-put_command key obj s ne =
      rw
        (put-cache
          (cacheable_command_to_key pretty
            (record key { command_root = aliased s.command_root_aliases key.command_root }))
          obj (ttl_or_default key.ttl_option) s ne)
        (get-set _ _ _ _)

  -- Under the same conditions, when a root that has no alias itself is then made the target of an
  -- alias, the command with the alias for its root is answered with the target's result.
  pub get-alias_target :
      (alias target : Text) (key : CacheableCommand) (obj : V) (s : LocalMemoryCache C)
      → ttl_or_default key.ttl_option * s.time_to_live_multiplier ≢ 0
      → aliased s.command_root_aliases target ≡ target
      → get_command node_cache pretty
          (record key { command_root = alias })
          (alias_command_as_another_command_root node_cache pretty alias target
            (put_command node_cache pretty (record key { command_root = target }) obj s))
        ≡ some obj
  unfolding get_command put_command alias_command_as_another_command_root aliased
  get-alias_target alias target key obj s ne own = rw own (
      rw
        (put-cache (cacheable_command_to_key pretty (record key { command_root = target })) obj
          (ttl_or_default key.ttl_option) s ne)
        (rw (===_self alias, get_command, aliased) (get-set _ _ _ _)))
