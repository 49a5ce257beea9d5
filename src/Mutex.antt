-- ===== src/Mutex.antt =====
-- vscode-dotnet-runtime-library/src/Utils/NodeIPCMutex.ts: the lock that a process holds by
-- listening on a socket. The operating system's answers are a parameter: `environment n` is what the
-- attempt after n retries meets. `rm` of the socket is forced, so its failures change nothing here.
pub mod Retries
pub mod System
pub mod Exclusion
pub mod Refinement
use vscode_dotnet_runtime.Prelude.{
  ℕ, zero, suc, ◌+◌, ◌-◌, ◌*◌, ◌/◌, Bool, true, false, ◌||◌, ◌&&◌, Option, none, some, List, [],
  ◌∷◌, ◌++◌, leb, ltb, ◌==◌, if◌then◌else◌, length, take,
}
use vscode_dotnet_runtime.Text.{Text, codes, ◌===◌}

-- The error codes that the lock tells apart.
pub data ErrorCode : Type 0 where
  eaddrinuse eexist eacces eperm erofs econnrefused econnreset enoent other_code : ErrorCode

-- What `tryAcquire` meets: `listen` fails; or it succeeds and `fn` returns or throws. A thrown value
-- without a name and a message is replaced by an error that has no code.
pub data Attempt {ℓ} (A : Type ℓ) : Type ℓ where
  listen_failed : ErrorCode → Attempt A
  returned : A → Attempt A
  threw_error : Option ErrorCode → Attempt A
  threw_value : Attempt A

-- What connecting to the socket meets.
pub data Connection : Type 0 where
  connected : Connection
  refused : ErrorCode → Connection

pub record Environment {ℓ} (A : Type ℓ) : Type ℓ where
  pub attempt : Attempt A
  pub directory_exists : Bool
  pub mkdir_succeeds : Bool
  pub connection : Connection

-- What an attempt gives: a value, or an error with its code.
pub data Tried {ℓ} (A : Type ℓ) : Type ℓ where
  resolved : A → Tried A
  rejected : Option ErrorCode → Tried A

abbrev pub try_acquire {ℓ} : {A : Type ℓ} → Attempt A → Tried A
try_acquire (listen_failed code) = rejected (some code)
try_acquire (returned value) = resolved value
try_acquire (threw_error code) = rejected code
try_acquire threw_value = rejected none

-- Whether the attempt ran `fn`.
abbrev pub runs {ℓ} : {A : Type ℓ} → Attempt A → ℕ
runs (listen_failed code) = 0
runs _ = 1

abbrev pub retryable : Option ErrorCode → Bool
retryable (some eaddrinuse) = true
retryable (some eexist) = true
retryable (some eacces) = true
retryable (some eperm) = true
retryable (some erofs) = true
retryable _ = false

abbrev pub is_lock_stale : Connection → Bool
is_lock_stale (refused econnrefused) = true
is_lock_stale (refused econnreset) = true
is_lock_stale _ = false

-- The platform as far as the lock looks at it.
pub data Platform : Type 0 where
  win32 linux darwin : Platform

abbrev pub is_windows : Platform → Bool
is_windows win32 = true
is_windows _ = false

unfoldable pub ensure_ipc_directory_exists : Platform → Bool → Bool → Bool
ensure_ipc_directory_exists platform directory_exists mkdir_succeeds =
    if is_windows platform then false else if directory_exists then false else mkdir_succeeds

-- `Math.ceil(timeoutTimeMs / retryDelayMs) + 1`; without a delay it is infinite or NaN (`none`).
unfoldable pub max_retry_count : ℕ → ℕ → Option ℕ
max_retry_count retry_delay_ms timeout_time_ms =
    if retry_delay_ms == 0
    then none
    else some ((timeout_time_ms + (retry_delay_ms - 1)) / retry_delay_ms + 1)

-- `retries >= max`, never true of an infinite count or NaN.
abbrev pub reached : ℕ → Option ℕ → Bool
reached retries none = false
reached retries (some max) = leb max retries

-- The local `retries`, the field `hasCleanedUpBefore`, and what is counted for the theorems: the
-- time waited, the runs of `fn` and the removals of the socket.
pub record Progress : Type 0 where
  pub retries : ℕ
  pub has_cleaned_up_before : Bool
  pub waited_ms : ℕ
  pub runs_of_fn : ℕ
  pub removals : ℕ

abbrev pub start : Bool → Progress
start cleaned = record {
  retries = 0;
  has_cleaned_up_before = cleaned;
  waited_ms = 0;
  runs_of_fn = 0;
  removals = 0;
}

pub data Outcome {ℓ} (A : Type ℓ) : Type ℓ where
  acquired : A → Outcome A
  failed_to_acquire : Option ErrorCode → Outcome A
  rethrown : Option ErrorCode → Outcome A
  still_trying : Outcome A

-- What happens between a failed attempt and the next one.
abbrev pub prepare {ℓ} : {A : Type ℓ} → Platform → ℕ → Environment A → Progress → Progress
prepare platform delay_ms e p =
    if ensure_ipc_directory_exists platform e.directory_exists e.mkdir_succeeds
    then record p { retries = p.retries + 1 }
    else if is_lock_stale e.connection
    then record p {
      retries = p.retries + 1;
      has_cleaned_up_before = true;
      waited_ms = if p.has_cleaned_up_before then p.waited_ms + delay_ms else p.waited_ms;
      removals = p.removals + 1;
    }
    else record p { retries = p.retries + 1; waited_ms = p.waited_ms + delay_ms }

-- What an iteration makes of its attempt, `later` being what the next iteration gives.
abbrev pub go_on {ℓ} :
    {A : Type ℓ} → Option ℕ → Tried A → Progress → Outcome A × Progress → Outcome A × Progress
go_on max (resolved value) p later = (acquired value, p)
go_on max (rejected code) p later =
    if retryable code
    then if reached p.retries max then (failed_to_acquire code, p) else later
    else (rethrown code, p)

module _ {ℓ} {A : Type ℓ} (platform : Platform) (delay_ms : ℕ) (max : Option ℕ)
    (environment : ℕ → Environment A) where
  abbrev pub ran : Progress → Progress
  ran p = record p { runs_of_fn = p.runs_of_fn + runs (environment p.retries).attempt }

  -- `while (true)`, on fuel; an attempt that ran out of fuel is `still_trying`.
  unfoldable pub acquire_loop : ℕ → Progress → Outcome A × Progress
  unfolding ensure_ipc_directory_exists
  acquire_loop zero p = (still_trying, p)
  acquire_loop (suc fuel) p =
      let later = acquire_loop fuel (prepare platform delay_ms (environment p.retries) (ran p)) in
      go_on max (try_acquire (environment p.retries).attempt) (ran p) later

-- `acquireInternal` from its times.
unfoldable pub acquire_internal {ℓ} :
    {A : Type ℓ} → Platform → ℕ → ℕ → (ℕ → Environment A) → ℕ → Bool → Outcome A × Progress
unfolding acquire_loop max_retry_count
acquire_internal platform delay_ms timeout_ms environment fuel cleaned =
    acquire_loop platform delay_ms (max_retry_count delay_ms timeout_ms) environment fuel
      (start cleaned)

-- `getIPCDirectory`; an environment variable that is empty counts as absent.
unfoldable pub get_ipc_directory : Platform → Option Text → Text → Text
get_ipc_directory win32 xdg tmpdir = codes "\\\\.\\pipe\\"
get_ipc_directory linux (some (x ∷ xs)) tmpdir = x ∷ xs
get_ipc_directory _ xdg tmpdir = tmpdir

abbrev pub length_limit : Platform → ℕ
length_limit platform = if is_windows platform then 256 else 104

-- `Math.max(n - 1, 6)` of the limits 256 and 104.
abbrev pub truncated : Platform → Text → Text → Text
truncated platform directory id =
    if ltb (length_limit platform) (length id + length directory)
    then take (length_limit platform - 1) id
    else id

-- `getIPCHandlePath`, with `path.join` as a parameter. The id is too long if it exceeds the limit
-- less the directory's length, which may be negative.
unfoldable pub get_ipc_handle_path : (Text → Text → Text) → Platform → Text → Text → Text
get_ipc_handle_path join platform directory id =
    if is_windows platform
    then directory ++ codes "vscd-" ++ truncated platform directory id ++ codes "-sock"
    else join directory (codes "vscd-" ++ truncated platform directory id ++ codes ".sock")
