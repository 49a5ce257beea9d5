-- ===== src/Mutex/System.antt =====
-- NodeIPCMutex.ts on Linux and macOS, with any number of processes: the steps between which another
-- process may run. What Node documents of its sockets: `listen` succeeds only where there is no
-- socket file and makes it; connecting to the file of a dead process is refused; closing the server
-- removes the file at its path; a process that dies leaves the file.
use vscode_dotnet_runtime.Prelude.{ℕ, ◌≡◌, Option, none, some, if◌then◌else◌, ◌==◌}

-- Where a process is in `acquireInternal`: `trying` before `listen`, `refused_lock` after it failed,
-- `saw_stale` after `isLockStale` returned true and before `rm`.
pub data Phase : Type 0 where
  trying refused_lock saw_stale holding dead : Phase

-- The socket file, by the process that made it, and the processes.
pub record System : Type 0 where
  pub socket : Option ℕ
  pub phase : ℕ → Phase

abbrev pub moved : System → ℕ → Phase → ℕ → Phase
moved s i p j = if i == j then p else s.phase j

pub data Step (s : System) : System → Type 0 where
  listens :
      (i : ℕ)
      → s.phase i ≡ trying
      → s.socket ≡ none
      → Step s (record { socket = some i; phase = moved s i holding })
  is_refused :
      (i j : ℕ)
      → s.phase i ≡ trying
      → s.socket ≡ some j
      → Step s (record { socket = s.socket; phase = moved s i refused_lock })
  -- The owner answers: wait and retry.
  connects :
      (i j : ℕ)
      → s.phase i ≡ refused_lock
      → s.socket ≡ some j
      → s.phase j ≡ holding
      → Step s (record { socket = s.socket; phase = moved s i trying })
  -- `ENOENT`, which is no sign of a stale lock.
  finds_nothing :
      (i : ℕ)
      → s.phase i ≡ refused_lock
      → s.socket ≡ none
      → Step s (record { socket = s.socket; phase = moved s i trying })
  finds_stale :
      (i j : ℕ)
      → s.phase i ≡ refused_lock
      → s.socket ≡ some j
      → s.phase j ≡ dead
      → Step s (record { socket = s.socket; phase = moved s i saw_stale })
  removes :
      (i : ℕ) → s.phase i ≡ saw_stale → Step s (record { socket = none; phase = moved s i trying })
  releases :
      (i : ℕ) → s.phase i ≡ holding → Step s (record { socket = none; phase = moved s i trying })
  dies : (i : ℕ) → Step s (record { socket = s.socket; phase = moved s i dead })

pub data Reach (s : System) : System → Type 0 where
  here : Reach s s
  next : {t u : System} → Reach s t → Step t u → Reach s u

-- The start: no socket, and every process is about to try.
abbrev pub idle : System
idle = record { socket = none; phase = λ i. trying }
