-- ===== src/Tests/Caching.antt =====
-- Runs of the theorems on LocalMemoryCacheSingleton.ts, over a map in the place of `node-cache`.
use vscode_dotnet_runtime.Prelude.{List, [], map}
use vscode_dotnet_runtime.Text.{Text}
use vscode_dotnet_runtime.Collections.{MapOfSets, get, put}
use vscode_dotnet_runtime.Cache.{NodeCache, LocalMemoryCache}

abbrev pub map_cache : NodeCache MapOfSets (List Text)
map_cache = record {
  stored_get = get;
  stored_set = λ key obj ttl c. put key obj c;
  stored_keys = λ c. map (λ e. e.0) c;
  stored_delete = λ keys c. c;
  stored_clear = λ c. [];
}

abbrev pub pretty : Text → List Text → Text
pretty root parts = root

abbrev pub empty_cache : LocalMemoryCache MapOfSets
empty_cache = record { cache = []; command_root_aliases = []; time_to_live_multiplier = 1 }
