-- ===== src/Tests/Locking.antt =====
-- Runs of the theorems on NodeIPCMutex.ts.
use vscode_dotnet_runtime.Prelude.{
  ℕ, ◌↔◌, ◌-◌, ◌*◌, ◌≤◌, ◌≡◌, refl, ◌≢◌, true, false, some, arith, ◌==◌, if◌then◌else◌,
}
use vscode_dotnet_runtime.Mutex.{
  eaddrinuse, eacces, Attempt, listen_failed, returned, threw_error, Environment, connected, linux,
  still_trying, acquired, failed_to_acquire,
}
use vscode_dotnet_runtime.Mutex.Retries.{
  attempts, result, acquire_ends, acquire-Succeeds, function_is_run_again,
}
use vscode_dotnet_runtime.Mutex.System.{System, holding, trying, Reach, listens, idle}
use vscode_dotnet_runtime.Mutex.Exclusion.{CalmReach, calm_start, calm_next, stale_lock_race}
use vscode_dotnet_runtime.Mutex.Refinement.{LockStep, IsHolder, calm_refines}

abbrev answering : Attempt ℕ → Environment ℕ
answering attempt = record {
  attempt = attempt;
  directory_exists = true;
  mkdir_succeeds = false;
  connection = connected;
}

-- The lock is taken at the first two attempts, then free.
abbrev busy_twice : ℕ → Environment ℕ
busy_twice n = answering (
    if n == 0
    then listen_failed eaddrinuse
    else if n == 1
    then listen_failed eaddrinuse
    else returned 7)

abbrev denied : ℕ → Environment ℕ
denied n = answering (threw_error (some eacces))

acquire_ends_example :
    ((result linux 50 100 4 busy_twice false).0 ≢ still_trying)
    × ((result linux 50 100 4 busy_twice false).1.waited_ms
        ≤ (attempts linux 50 100 4 busy_twice false - 1) * 50)
    × ((result linux 50 100 4 busy_twice false).1.runs_of_fn
        ≤ attempts linux 50 100 4 busy_twice false)
acquire_ends_example = acquire_ends linux 50 100 4 busy_twice false (omega arith) (omega arith)

acquire-Succeeds_example : (result linux 50 100 4 busy_twice false).0 ≡ acquired 7
acquire-Succeeds_example =
    acquire-Succeeds linux 50 100 4 busy_twice false 2 7 (omega arith) (omega arith) (omega arith)
      ((some eaddrinuse, refl, refl), ((some eaddrinuse, refl, refl), refl))

function_is_run_again_example :
    ((result linux 50 100 4 denied false).1.runs_of_fn ≡ attempts linux 50 100 4 denied false)
    × ((result linux 50 100 4 denied false).0 ≡ failed_to_acquire (some eacces))
function_is_run_again_example =
    function_is_run_again linux 50 100 4 denied false (omega arith) (omega arith) (λ n. refl)

abbrev first_holds : System
first_holds = record { socket = some 0; phase = λ j. if 0 == j then holding else trying }

calm : CalmReach first_holds
calm = calm_next calm_start (listens 0 refl refl) (λ i. ground arith)

abbrev first : ℕ
first = 0

calm_refines_example :
    LockStep idle.socket first_holds.socket
    × ((i : ℕ) → (first_holds.phase i ≡ holding) ↔ IsHolder first_holds i)
calm_refines_example = calm_refines calm_start (listens 0 refl refl) (λ i. ground arith)

stale_lock_race_example :
    (s : System) × Reach idle s × (s.phase 1 ≡ holding) × (s.phase 2 ≡ holding)
stale_lock_race_example = stale_lock_race 0 1 2 (omega arith) (omega arith) (omega arith)
