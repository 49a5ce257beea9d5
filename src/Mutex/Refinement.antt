-- ===== src/Mutex/Refinement.antt =====
-- NodeIPCMutex.ts refines a lock with one holder, as long as no process dies.
use vscode_dotnet_runtime.Prelude.{ℕ, ◌≡◌, ◌≢◌, ◌↔◌, Option, none, some, arith, ==_iff}
use vscode_dotnet_runtime.Mutex.System.{
  saw_stale, holding, dead, System, Step, listens, is_refused, connects, finds_nothing, finds_stale,
  removes, releases, dies,
}
use vscode_dotnet_runtime.Mutex.Exclusion.{CalmReach, calm_start, calm_next, Calm-Inv}

-- The lock as its users see it: at most one holder, who got it when it was free.
pub data LockStep : Option ℕ → Option ℕ → Type 0 where
  takes : (i : ℕ) → LockStep none (some i)
  gives_back : (i : ℕ) → LockStep (some i) none
  waits : (holder : Option ℕ) → LockStep holder holder

-- The holder is the process that made the socket.
abbrev pub IsHolder : System → ℕ → Type 0
IsHolder s i = s.socket ≡ some i

Step-holds :
    {s t : System}
    → Step s t
    → ((k : ℕ) → s.socket ≡ some k → s.phase k ≡ holding)
    → ((k : ℕ) → s.phase k ≡ holding → s.socket ≡ some k)
    → ((k : ℕ) → s.phase k ≢ saw_stale)
    → ((k : ℕ) → t.phase k ≢ dead)
    → (k : ℕ) → t.socket ≡ some k
    → t.phase k ≡ holding
Step-holds (listens i p q) h own calm alive k e = ground (arith, ==_iff i k)
Step-holds (is_refused i j p q) h own calm alive k e = ground (arith, h k, ==_iff i k)
Step-holds (connects i j p q r) h own calm alive k e = ground (arith, h k, ==_iff i k)
Step-holds (finds_nothing i p q) h own calm alive k e = ground (arith, h k, ==_iff i k)
Step-holds (finds_stale i j p q r) h own calm alive k e = ground (arith, h k, ==_iff i k)
Step-holds (removes i p) h own calm alive k e = cc
Step-holds (releases i p) h own calm alive k e = cc
Step-holds (dies i) h own calm alive k e = ground (arith, h k, ==_iff i k, alive i, alive k)

Calm-holds : {s : System} → CalmReach s → (k : ℕ) → s.socket ≡ some k → s.phase k ≡ holding
Calm-holds calm_start k e = cc
Calm-holds (calm_next r st alive) k e =
    Step-holds st (Calm-holds r) (Calm-Inv r).owner (Calm-Inv r).none_stale alive k e

Step-LockStep :
    {s t : System}
    → Step s t
    → ((k : ℕ) → s.phase k ≡ holding → s.socket ≡ some k)
    → ((k : ℕ) → s.phase k ≢ saw_stale)
    → LockStep s.socket t.socket
Step-LockStep (listens i p q) own calm = rw q (takes i)
Step-LockStep (is_refused i j p q) own calm = waits _
Step-LockStep (connects i j p q r) own calm = waits _
Step-LockStep (finds_nothing i p q) own calm = waits _
Step-LockStep (finds_stale i j p q r) own calm = waits _
Step-LockStep (removes i p) own calm = absurd (calm i p)
Step-LockStep (releases i p) own calm = rw (own i p) (gives_back i)
Step-LockStep (dies i) own calm = waits _

-- While no process dies, every step of the protocol is a step of a lock with one holder: it is taken
-- where it is free, given back by its holder, or left as it is; and the processes that hold the lock
-- are exactly its holder.
pub calm_refines :
    {s t : System}
    → CalmReach s
    → Step s t
    → ((k : ℕ) → t.phase k ≢ dead)
    → LockStep s.socket t.socket × ((i : ℕ) → (t.phase i ≡ holding) ↔ IsHolder t i)
calm_refines r st alive =
    let later = calm_next r st alive in
    (
      Step-LockStep st (Calm-Inv r).owner (Calm-Inv r).none_stale,
      λ i. ((Calm-Inv later).owner i, Calm-holds later i),
    )
