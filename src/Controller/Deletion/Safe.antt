-- ===== src/Controller/Deletion/Safe.antt =====
-- No DELETE is sent but behind the gate and the UID precondition.
use zen_cleaner.Prelude.{
  ℕ, zero, suc, ◌%◌, ◌≡◌, refl, inl, inr, Bool, true, false, ◌&&◌, Option, none, some, List, [],
  ◌∷◌, ◌==◌, eq_iff, eqb, Bool-cases,
}
use zen_cleaner.Unstructured.{Unstructured}
use zen_cleaner.Api.{BehaviorSpec}
use zen_cleaner.Safety.{Verdict, allow, refuse, Gate}
use zen_cleaner.Backoff.{Backoff, default_config, new_backoff, next, is_exhausted}
use zen_cleaner.Controller.Deletion.{
  ApiError, not_found, Failure, Reply, live, failed, DeleteOptions, waited, slept, got, deletes,
  Log, Env, build_delete_options, delete_live, get_and_delete, verdict, perform_allowed,
  perform_resource_deletion, delete_resource, Outcome, sleep_and_retry, follow_attempt, fuel, Step,
  return, retry, after_attempt, retry_loop, delete_resource_with_backoff, Tally, count_outcome,
  delete_one, delete_batch_from, delete_batch,
}

module _ (gate : Option Gate) (allowed : BehaviorSpec → Type 0) where
  -- Before a DELETE comes the Get of the same resource, whose reply is the UID that was planned; the
  -- gate allows the resource under an allowed behavior that is no dry run, and the options are those
  -- of that behavior.
  abbrev pub Justified : Unstructured → DeleteOptions → Log → Type 0
  Justified resource options [] = ⊥
  Justified resource options (got r (live uid) ∷ log) =
      (r ≡ resource)
      × (uid ≡ resource.uid)
      × ((behavior : BehaviorSpec) × allowed behavior
          × (verdict gate resource behavior ≡ allow)
          × (behavior.dry_run ≡ false)
          × (options ≡ build_delete_options behavior))
  Justified resource options (_ ∷ log) = ⊥

  -- Every DELETE in a log is justified by what stands before it.
  abbrev pub IsSafe : Log → Type 0
  IsSafe [] = Unit
  IsSafe (deletes resource options ∷ log) = Justified resource options log × IsSafe log
  IsSafe (_ ∷ log) = IsSafe log

  module _ (env : Env) (behavior : BehaviorSpec) (is_allowed : allowed behavior)
      (resource : Unstructured) where
    delete_live-IsSafe :
        (reply : Reply) (log : Log)
        → verdict gate resource behavior ≡ allow
        → behavior.dry_run ≡ false
        → IsSafe log
        → IsSafe
            (delete_live env
              (build_delete_options behavior)
              resource
              reply
              (got resource reply ∷ log)).1
    unfolding delete_live
    delete_live-IsSafe (failed not_found) log v d h = h
    delete_live-IsSafe (failed _) log v d h = h
    delete_live-IsSafe (live uid) log v d h = elim (Bool-cases (uid == resource.uid)) [
      | inl e ↦
          simp e ((refl, (eq_iff uid resource.uid).0 e, (behavior, is_allowed, v, d, refl)), h)
      | inr e ↦ simp e h
    ]

    perform_allowed-IsSafe :
        (v : Verdict) (log : Log)
        → verdict gate resource behavior ≡ v
        → behavior.dry_run ≡ false
        → IsSafe log
        → IsSafe (perform_allowed env v (build_delete_options behavior) resource log).1
    unfolding perform_allowed get_and_delete
    perform_allowed-IsSafe (refuse r) log v d h = h
    perform_allowed-IsSafe allow log v d h = delete_live-IsSafe (env.get log resource) log v d h

    delete_resource-IsSafe :
        (log : Log) → IsSafe log → IsSafe (delete_resource env gate behavior resource log).1
    unfolding delete_resource perform_resource_deletion
    delete_resource-IsSafe log h = elim (Bool-cases (env.wait log)) [
      | inl e ↦ simp (delete_resource, e) h
      | inr e ↦ elim (Bool-cases behavior.dry_run) [
        | inl d ↦ simp (delete_resource, e, d) h
        | inr d ↦
            simp (delete_resource, e, d)
              (perform_allowed-IsSafe (verdict gate resource behavior) (waited ∷ log) refl d h)
      ]
    ]

sleep_and_retry_keeps {ℓ} :
    (P : Log → Type ℓ) (env : Env) (delay : ℕ) (e : ApiError) (log : Log)
    (rest : ApiError → Outcome)
    → P log
    → P (slept ∷ log)
    → P (rest e).1
    → P (sleep_and_retry env delay e log rest).1
unfolding sleep_and_retry
sleep_and_retry_keeps P env delay e log rest h s k = elim (Bool-cases (eqb delay 0)) [
  | inl z ↦ simp (sleep_and_retry, z) h
  | inr z ↦ elim (Bool-cases (env.done (slept ∷ log))) [
    | inl d ↦ simp (sleep_and_retry, z, d) s
    | inr d ↦ simp (sleep_and_retry, z, d) k
  ]
]

pub follow_attempt_keeps {ℓ} :
    (P : Log → Type ℓ) (env : Env) (delay : ℕ) (log : Log) (rest : ApiError → Outcome) (step : Step)
    → P log
    → P (slept ∷ log)
    → ((e : ApiError) → P (rest e).1)
    → P (follow_attempt env delay log rest step).1
unfolding follow_attempt
follow_attempt_keeps P env delay log rest (return result) h s k = h
follow_attempt_keeps P env delay log rest (retry e) h s k =
    sleep_and_retry_keeps P env delay e log rest h s (k e)

-- What an attempt keeps, and a sleep keeps, the retries keep.
pub retry_loop_keeps {ℓ} :
    (P : Log → Type ℓ) (env : Env) (try : Log → Option Failure × Log)
    → ((log : Log) → P log → P (try log).1)
    → ((log : Log) → P log → P (slept ∷ log))
    → (fuel : ℕ) (b : Backoff) (last : Option ApiError) (log : Log) → P log
    → P (retry_loop env try fuel b last log).1
unfolding retry_loop
retry_loop_keeps P env try k s zero b last log h = h
retry_loop_keeps P env try k s (suc fuel) b last log h =
    let tried = k log h in
    let rest =
      λ (e : ApiError). retry_loop env try fuel (next b).0 (some e) (slept ∷ (try log).1) in
    let kept =
      follow_attempt_keeps P env (next b).1 (try log).1 rest (after_attempt (try log).0) tried
        (s _ tried) (λ e. retry_loop_keeps P env try k s fuel (next b).0 (some e) _ (s _ tried)) in
    elim (Bool-cases (is_exhausted b)) [
      | inl x ↦ simp x h
      | inr x ↦ elim (Bool-cases (env.done log)) [
        | inl d ↦ simp (x, d) h
        | inr d ↦ simp (x, d) kept
      ]
    ]

module _ (env : Env) (gate : Option Gate) (allowed : BehaviorSpec → Type 0)
    (behavior : BehaviorSpec) (is_allowed : allowed behavior) where
  count_outcome-IsSafe :
      (dry_run : Bool) (resource : Unstructured) (outcome : Option (Option Failure)) (t : Tally)
      (log : Log)
      → IsSafe gate allowed log
      → IsSafe gate allowed (count_outcome dry_run resource outcome t log).1
  unfolding count_outcome
  count_outcome-IsSafe dry_run resource none t log h = h
  count_outcome-IsSafe dry_run resource (some (some e)) t log h = h
  count_outcome-IsSafe true resource (some none) t log h = h
  count_outcome-IsSafe false resource (some none) t log h = h

  delete_one-IsSafe :
      (resource : Unstructured) (t : Tally) (log : Log)
      → IsSafe gate allowed log
      → IsSafe gate allowed (delete_one env gate behavior resource t log).1
  unfolding delete_one delete_resource_with_backoff
  delete_one-IsSafe resource t log h =
      let outcome = delete_resource_with_backoff env gate behavior resource (waited ∷ log) in
      let tried =
        retry_loop_keeps (IsSafe gate allowed) env (delete_resource env gate behavior resource)
          (delete_resource-IsSafe gate allowed env behavior is_allowed resource) (λ l k. k) fuel
          (new_backoff (default_config env.floats)) none (waited ∷ log) h in
      elim (Bool-cases (env.wait log)) [
        | inl e ↦ simp (delete_one, e) h
        | inr e ↦
            simp (delete_one, e)
              (count_outcome-IsSafe behavior.dry_run resource outcome.0 t outcome.1 tried)
      ]

  delete_batch_from-IsSafe :
      (i : ℕ) (batch : List Unstructured) (t : Tally) (log : Log)
      → IsSafe gate allowed log
      → IsSafe gate allowed (delete_batch_from env gate behavior i batch t log).1
  unfolding delete_batch_from
  delete_batch_from-IsSafe i [] t log h = h
  delete_batch_from-IsSafe i (resource ∷ more) t log h =
      let one = delete_one env gate behavior resource t log in
      let ih =
        delete_batch_from-IsSafe (suc i) more one.0 one.1 (delete_one-IsSafe resource t log h) in
      elim (Bool-cases (eqb (i % 50) 0 && env.done log)) [ inl e ↦ rw e h | inr e ↦ rw e ih ]

  -- Whatever the API server, the limiter and the context answer, a batch of a policy whose behavior is
  -- allowed leaves a safe log safe: every DELETE that it sends is for a resource that the gate
  -- allows, comes right after a Get whose reply was the very UID of that resource, carries the
  -- delete options of an allowed behavior, and that behavior is no dry run.
  pub delete_batch-IsSafe :
      (batch : List Unstructured) (log : Log)
      → IsSafe gate allowed log
      → IsSafe gate allowed (delete_batch env gate behavior batch log).1
  unfolding delete_batch
  delete_batch-IsSafe batch log h =
      delete_batch_from-IsSafe 0 batch (record { deleted = 0; errors = 0 }) log h
