-- ===== src/Mutex/Exclusion.antt =====
-- NodeIPCMutex.ts: when at most one process holds the lock.
use vscode_dotnet_runtime.Prelude.{ℕ, ◌≡◌, refl, ◌≢◌, some, arith, ==_iff}
use vscode_dotnet_runtime.Mutex.System.{
  saw_stale, holding, dead, System, moved, Step, listens, is_refused, connects, finds_nothing,
  finds_stale, removes, releases, dies, Reach, here, next, idle,
}

-- What can be reached while no process dies.
pub data CalmReach : System → Type 0 where
  calm_start : CalmReach idle
  calm_next : {s t : System} → CalmReach s → Step s t → ((i : ℕ) → t.phase i ≢ dead) → CalmReach t

-- The socket belongs to the process that holds the lock, and no process takes it for stale.
pub record Inv (s : System) : Type 0 where
  pub owner : (i : ℕ) → s.phase i ≡ holding → s.socket ≡ some i
  pub none_stale : (i : ℕ) → s.phase i ≢ saw_stale
  pub none_dead : (i : ℕ) → s.phase i ≢ dead

dead_now : (s : System) (i : ℕ) → moved s i dead i ≡ dead
dead_now s i = ground arith

Step-Inv : {s t : System} → Inv s → Step s t → ((i : ℕ) → t.phase i ≢ dead) → Inv t
Step-Inv inv (listens i p q) alive = record {
  owner = λ k h. ground (arith, inv.owner k, ==_iff i k);
  none_stale = λ k h. ground (arith, inv.none_stale k);
  none_dead = alive;
}
Step-Inv inv (is_refused i j p q) alive = record {
  owner = λ k h. ground (arith, inv.owner k);
  none_stale = λ k h. ground (arith, inv.none_stale k);
  none_dead = alive;
}
Step-Inv inv (connects i j p q r) alive = record {
  owner = λ k h. ground (arith, inv.owner k);
  none_stale = λ k h. ground (arith, inv.none_stale k);
  none_dead = alive;
}
Step-Inv inv (finds_nothing i p q) alive = record {
  owner = λ k h. ground (arith, inv.owner k);
  none_stale = λ k h. ground (arith, inv.none_stale k);
  none_dead = alive;
}
Step-Inv inv (finds_stale i j p q r) alive = absurd (inv.none_dead j r)
Step-Inv inv (removes i p) alive = absurd (inv.none_stale i p)
Step-Inv inv (releases i p) alive = record {
  owner = λ k h. ground (arith, inv.owner k, inv.owner i, ==_iff i k);
  none_stale = λ k h. ground (arith, inv.none_stale k);
  none_dead = alive;
}
Step-Inv {s} inv (dies i) alive = absurd (alive i (dead_now s i))

pub Calm-Inv : {s : System} → CalmReach s → Inv s
Calm-Inv calm_start = record { owner = λ i h. cc; none_stale = λ i h. cc; none_dead = λ i h. cc }
Calm-Inv (calm_next r st alive) = Step-Inv (Calm-Inv r) st alive

-- While no process dies, two processes never hold the lock at once.
pub mutual_exclusion :
    {s : System} → CalmReach s → (i j : ℕ) → s.phase i ≡ holding → s.phase j ≡ holding → i ≡ j
mutual_exclusion r i j a b = ground (arith, (Calm-Inv r).owner i a, (Calm-Inv r).owner j b)

-- Any three processes can come to a state in which two of them hold the lock at once: the first dies
-- while it holds the lock, the other two see its socket as stale, the second removes it and gets the
-- lock, and the third then removes the second's socket and gets the lock as well.
pub stale_lock_race :
    (i j k : ℕ)
    → i ≢ j
    → i ≢ k
    → j ≢ k
    → (s : System) × Reach idle s × (s.phase j ≡ holding) × (s.phase k ≡ holding)
stale_lock_race i j k i_j i_k j_k =
    let r0 : Reach idle idle = here in
    let r1 = next r0 (listens i refl refl) in
    let r2 = next r1 (is_refused j i (ground arith) refl) in
    let r3 = next r2 (is_refused k i (ground arith) refl) in
    let r4 = next r3 (dies i) in
    let r5 = next r4 (finds_stale j i (ground arith) refl (ground arith)) in
    let r6 = next r5 (finds_stale k i (ground arith) refl (ground arith)) in
    let r7 = next r6 (removes j (ground arith)) in
    let r8 = next r7 (listens j (ground arith) refl) in
    let r9 = next r8 (removes k (ground arith)) in
    let r10 = next r9 (listens k (ground arith) refl) in (_, r10, ground arith, ground arith)
