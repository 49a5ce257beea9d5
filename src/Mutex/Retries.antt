-- ===== src/Mutex/Retries.antt =====
-- NodeIPCMutex.ts `acquireInternal`: how long it tries.
use vscode_dotnet_runtime.Prelude.{
  ℕ, zero, suc, ◌+◌, ◌-◌, ◌*◌, ◌/◌, ◌≤◌, ◌<◌, ◌≡◌, refl, ◌∙◌, ap, ◌≢◌, sym, subst, Bool, true,
  false, Bool-cases, ◌⊎◌, inl, inr, Option, some, arith, leb,
}
use vscode_dotnet_runtime.Mutex.{
  ErrorCode, eacces, Attempt, threw_error, Environment, Tried, resolved, rejected, try_acquire,
  runs, retryable, Platform, max_retry_count, Progress, start, Outcome, acquired, failed_to_acquire,
  rethrown, still_trying, prepare, ran, go_on, acquire_loop, acquire_internal,
}

product_step : (n r d : ℕ) → r < n → (n - r) * d ≡ (n - (r + 1)) * d + d
product_step n r d lt = let e : n - r ≡ suc (n - (r + 1)) = omega arith in rw e (grind arith)

go_on-cases {ℓ} :
    {A : Type ℓ} (max : ℕ) (t : Tried A) (p : Progress) (later : Outcome A × Progress)
    → ((o : Outcome A) × (go_on (some max) t p later ≡ (o, p)) × (o ≢ still_trying))
      ⊎ ((go_on (some max) t p later ≡ later) × (p.retries < max))
go_on-cases max (resolved value) p later = inl (acquired value, refl, λ f. cc)
go_on-cases max (rejected code) p later = elim (Bool-cases (retryable code)) [
  | inr fatal ↦ inl (rethrown code, rw fatal refl, λ f. cc)
  | inl again ↦ elim (Bool-cases (leb max p.retries)) [
    | inl last ↦ inl (failed_to_acquire code, rw again (rw last refl), λ f. cc)
    | inr more ↦ inr (rw again (rw more refl), ground arith)
  ]
]

module _ {ℓ} {A : Type ℓ} (platform : Platform) (delay_ms max : ℕ)
    (environment : ℕ → Environment A) where
  abbrev loop : ℕ → Progress → Outcome A × Progress
  loop = acquire_loop platform delay_ms (some max) environment

  prepare-retries :
      (e : Environment A) (p : Progress) → (prepare platform delay_ms e p).retries ≡ p.retries + 1
  prepare-retries e p = ground arith

  prepare_waits :
      (e : Environment A) (p : Progress)
      → (prepare platform delay_ms e p).waited_ms ≤ p.waited_ms + delay_ms
  prepare_waits e p = ground arith

  prepare_runs :
      (e : Environment A) (p : Progress) → (prepare platform delay_ms e p).runs_of_fn ≡ p.runs_of_fn
  prepare_runs e p = ground arith

  abbrev next : Progress → Progress
  next p =
      prepare platform delay_ms (environment p.retries)
        (ran platform delay_ms (some max) environment p)

  next-retries : (p : Progress) → (next p).retries ≡ p.retries + 1
  next-retries p = prepare-retries (environment p.retries) _

  next_waits : (p : Progress) → (next p).waited_ms ≤ p.waited_ms + delay_ms
  next_waits p = prepare_waits (environment p.retries) _

  runs_once : (e : Attempt A) → runs e ≤ 1
  runs_once e = ground arith

  next_runs : (p : Progress) → (next p).runs_of_fn ≤ p.runs_of_fn + 1
  next_runs p = omega (
    arith,
    prepare_runs (environment p.retries) (ran platform delay_ms (some max) environment p),
    runs_once (environment p.retries).attempt,
  )

  loop_ends :
      (fuel : ℕ) (p : Progress)
      → p.retries ≤ max
      → max + 1 ≤ fuel + p.retries
      → ((loop fuel p).0 ≢ still_trying)
        × ((loop fuel p).1.waited_ms ≤ p.waited_ms + (max - p.retries) * delay_ms)
        × ((loop fuel p).1.runs_of_fn + p.retries ≤ p.runs_of_fn + (max + 1))
  unfolding acquire_loop
  loop_ends zero p le enough = absurd (omega arith)
  loop_ends (suc fuel) p le enough =
      elim (go_on-cases max (try_acquire (environment p.retries).attempt)
        (ran platform delay_ms (some max) environment p) (loop fuel (next p))) [
          | inl (o, e, ended) ↦
              rw e (ended, omega arith, omega (arith, runs_once (environment p.retries).attempt))
          | inr (e, lt) ↦
              let (ended, waits, ran_fn) =
                loop_ends fuel (next p) (omega (arith, next-retries p))
                  (omega (arith, next-retries p)) in
              let waits' = rw (next-retries p) at waits in
              rw e (
                ended,
                omega (
                  arith,
                  waits',
                  next-retries p,
                  next_waits p,
                  product_step max p.retries delay_ms lt,
                ),
                omega (arith, ran_fn, next-retries p, next_runs p),
              )
        ]

  -- Where the attempt after `n` more retries succeeds and those before it fail retryably.
  abbrev pub Succeeds : ℕ → ℕ → A → Type ℓ
  Succeeds zero r value = try_acquire (environment r).attempt ≡ resolved value
  Succeeds (suc n) r value =
      ((code : Option ErrorCode) × (try_acquire (environment r).attempt ≡ rejected code)
        × (retryable code ≡ true))
      × Succeeds n (r + 1) value

  loop-Succeeds :
      (n fuel : ℕ) (p : Progress) (value : A)
      → n < fuel
      → p.retries + n ≤ max
      → Succeeds n p.retries value
      → (loop fuel p).0 ≡ acquired value
  unfolding acquire_loop
  loop-Succeeds n zero p value lt le h = absurd (omega arith)
  loop-Succeeds zero (suc fuel) p value lt le h = rw h refl
  loop-Succeeds (suc n) (suc fuel) p value lt le ((code, e, again), h) =
      let inside : leb max p.retries ≡ false = ground arith in
      rw e (
        rw again (
          rw inside (
            loop-Succeeds n fuel (next p) value (omega arith) (omega (arith, next-retries p))
              (subst (λ r. Succeeds n r value) (sym (next-retries p)) h))))

  abbrev pub Denied : Type ℓ
  Denied = (n : ℕ) → (environment n).attempt ≡ threw_error (some eacces)

  next-runs : Denied → (p : Progress) → (next p).runs_of_fn ≡ p.runs_of_fn + 1
  next-runs h p =
      prepare_runs (environment p.retries) (ran platform delay_ms (some max) environment p)
      ∙ rw (h p.retries) refl

  loop_runs :
      (fuel : ℕ) (p : Progress)
      → p.retries ≤ max
      → max + 1 ≤ fuel + p.retries
      → Denied
      → ((loop fuel p).1.runs_of_fn + p.retries ≡ p.runs_of_fn + (max + 1))
        × ((loop fuel p).0 ≡ failed_to_acquire (some eacces))
  unfolding acquire_loop
  loop_runs zero p le enough h = absurd (omega arith)
  loop_runs (suc fuel) p le enough h = elim (Bool-cases (leb max p.retries)) [
    | inl last ↦
        let e : loop (suc fuel) p
            ≡ (failed_to_acquire (some eacces), ran platform delay_ms (some max) environment p) =
          rw (h p.retries) (rw last refl) in
        rw e (rw (h p.retries) (ground arith), refl)
    | inr more ↦
        let e : loop (suc fuel) p ≡ loop fuel (next p) = rw (h p.retries) (rw more refl) in
        let lt : p.retries < max = ground arith in
        let (count, outcome) =
          loop_runs fuel (next p) (omega (arith, next-retries p)) (omega (arith, next-retries p))
            h in
        rw e (omega (arith, count, next-retries p, next-runs h p), outcome)
  ]

module _ {ℓ} {A : Type ℓ} (platform : Platform) (delay_ms timeout_ms fuel : ℕ)
    (environment : ℕ → Environment A) (cleaned : Bool) where
  abbrev pub attempts : ℕ
  attempts = (timeout_ms + (delay_ms - 1)) / delay_ms + 2

  abbrev pub result : Outcome A × Progress
  result = acquire_internal platform delay_ms timeout_ms environment fuel cleaned

  bounded : 0 < delay_ms → max_retry_count delay_ms timeout_ms ≡ some (attempts - 1)
  unfolding max_retry_count
  bounded pos = ground arith

  as_loop :
      0 < delay_ms
      → result
        ≡ acquire_loop platform delay_ms (some (attempts - 1)) environment fuel (start cleaned)
  unfolding acquire_internal
  as_loop pos =
      ap (λ m. acquire_loop platform delay_ms m environment fuel (start cleaned)) (bounded pos)

  -- With a delay, acquiring ends within its attempts, however the attempts go: it waits at most the
  -- delay for each but the last, and runs the function at most once in each.
  pub acquire_ends :
      0 < delay_ms
      → attempts ≤ fuel
      → (result.0 ≢ still_trying)
        × (result.1.waited_ms ≤ (attempts - 1) * delay_ms)
        × (result.1.runs_of_fn ≤ attempts)
  acquire_ends pos enough =
      let (ended, waits, ran_fn) =
        loop_ends platform delay_ms (attempts - 1) environment fuel (start cleaned) (omega arith)
          (omega arith) in
      let all_retries : attempts - 1 - 0 ≡ attempts - 1 = omega arith in
      let waits' = rw all_retries at waits in
      rw (as_loop pos) (ended, omega (arith, waits'), omega (arith, ran_fn))

  -- With a delay, the first attempt that gets the lock and completes gives its value, where those
  -- before it failed with a code that is retried and the allowed attempts are not used up.
  pub acquire-Succeeds :
      (n : ℕ) (value : A)
      → 0 < delay_ms
      → n < attempts
      → attempts ≤ fuel
      → Succeeds platform delay_ms (attempts - 1) environment n 0 value
      → result.0 ≡ acquired value
  acquire-Succeeds n value pos lt enough h =
      ap (λ o. o.0) (as_loop pos)
      ∙ loop-Succeeds platform delay_ms (attempts - 1) environment n fuel (start cleaned) value
          (omega arith) (omega arith) h

  -- With a delay, a function that gets the lock each time and throws an error with the code `EACCES`
  -- is run again in every attempt, as if the lock had been refused.
  pub function_is_run_again :
      0 < delay_ms
      → attempts ≤ fuel
      → Denied platform delay_ms (attempts - 1) environment
      → (result.1.runs_of_fn ≡ attempts) × (result.0 ≡ failed_to_acquire (some eacces))
  function_is_run_again pos enough h =
      let (count, outcome) =
        loop_runs platform delay_ms (attempts - 1) environment fuel (start cleaned) (omega arith)
          (omega arith) h in
      rw (as_loop pos) (omega (arith, count), outcome)
