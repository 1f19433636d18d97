-- ===== src/Controller/Deletion/Attempts.antt =====
-- How often a deletion is tried, and that its loop ends.
use zen_cleaner.Prelude.{
  ℕ, zero, suc, ◌+◌, ◌*◌, ◌%◌, ◌≤◌, ◌<◌, ◌≡◌, refl, sym, ap, ◌≢◌, inl, inr, Bool, true, false, ◌&&◌,
  Option, none, some, List, [], ◌∷◌, arith, ◌==◌, eqb, Bool-cases, length,
}
use zen_cleaner.Unstructured.{Unstructured}
use zen_cleaner.Api.{BehaviorSpec}
use zen_cleaner.Safety.{Verdict, allow, refuse, Gate}
use zen_cleaner.Backoff.{Backoff, default_config, new_backoff, next, is_exhausted}
use zen_cleaner.Backoff.Laws.{next_step}
use zen_cleaner.Controller.Deletion.Safe.{
  Justified, IsSafe, follow_attempt_keeps, delete_batch-IsSafe,
}
use zen_cleaner.Controller.Deletion.{
  ApiError, not_found, Failure, Reply, live, failed, DeleteOptions, waited, slept, got, deletes,
  Log, Env, build_delete_options, delete_live, get_and_delete, verdict, perform_allowed,
  perform_resource_deletion, delete_resource, Outcome, sleep_and_retry, follow_attempt, fuel, Step,
  return, retry, after_attempt, retry_loop, delete_resource_with_backoff, Tally, count_outcome,
  delete_one, delete_batch_from, delete_batch,
}

sleep_and_retry_some :
    (env : Env) (delay : ℕ) (e : ApiError) (log : Log) (rest : ApiError → Outcome)
    → (rest e).0 ≢ none
    → (sleep_and_retry env delay e log rest).0 ≢ none
unfolding sleep_and_retry
sleep_and_retry_some env delay e log rest k = elim (Bool-cases (eqb delay 0)) [
  | inl z ↦ simp (sleep_and_retry, z) (λ q. cc)
  | inr z ↦ elim (Bool-cases (env.done (slept ∷ log))) [
    | inl d ↦ simp (sleep_and_retry, z, d) (λ q. cc)
    | inr d ↦ simp (sleep_and_retry, z, d) k
  ]
]

follow_attempt_some :
    (env : Env) (delay : ℕ) (log : Log) (rest : ApiError → Outcome) (step : Step)
    → ((e : ApiError) → (rest e).0 ≢ none)
    → (follow_attempt env delay log rest step).0 ≢ none
unfolding follow_attempt
follow_attempt_some env delay log rest (return result) k = λ q. cc
follow_attempt_some env delay log rest (retry e) k = sleep_and_retry_some env delay e log rest (k e)

-- A step that is not the last leaves the rest of the steps.
next_room :
    (b : Backoff)
    → b.step ≤ b.backoff.steps
    → is_exhausted b ≡ false
    → ((next b).0.backoff ≡ b.backoff) × ((next b).0.step ≡ b.step + 1) × (b.step < b.backoff.steps)
unfolding is_exhausted
next_room b h x = ground (arith, next_step b)

-- The retries end before the fuel does, if there is more fuel than steps left.
retry_loop_ends :
    (env : Env) (try : Log → Option Failure × Log) (fuel : ℕ) (b : Backoff) (last : Option ApiError)
    (log : Log)
    → b.step ≤ b.backoff.steps
    → b.backoff.steps < b.step + fuel
    → (retry_loop env try fuel b last log).0 ≢ none
unfolding retry_loop
retry_loop_ends env try zero b last log l h = absurd (omega arith)
retry_loop_ends env try (suc fuel) b last log l h =
    let rest =
      λ (e : ApiError). retry_loop env try fuel (next b).0 (some e) (slept ∷ (try log).1) in
    elim (Bool-cases (is_exhausted b)) [
      | inl x ↦ simp x (λ q. cc)
      | inr x ↦
          let (same, grown, room) = next_room b l x in
          let steps : (next b).0.backoff.steps ≡ b.backoff.steps = ap (λ c. c.steps) same in
          elim (Bool-cases (env.done log)) [
            | inl d ↦ simp (x, d) (λ q. cc)
            | inr d ↦
                simp (x, d)
                  (follow_attempt_some env (next b).1 (try log).1 rest (after_attempt (try log).0)
                    (λ e.
                      retry_loop_ends env try fuel (next b).0 (some e) (slept ∷ (try log).1)
                        (omega arith) (omega arith)))
          ]
    ]

-- A deletion with backoff always comes to an end: the fuel is enough, whatever the API server, the
-- limiter, the context and the float products answer.
pub delete_resource_with_backoff_ends :
    (env : Env) (gate : Option Gate) (behavior : BehaviorSpec) (resource : Unstructured) (log : Log)
    → (delete_resource_with_backoff env gate behavior resource log).0 ≢ none
unfolding delete_resource_with_backoff new_backoff default_config
delete_resource_with_backoff_ends env gate behavior resource log =
    retry_loop_ends env (delete_resource env gate behavior resource) fuel
      (new_backoff (default_config env.floats)) none log (omega arith) (omega arith)

-- The DELETEs in a log.
abbrev pub sent : Log → ℕ
sent [] = 0
sent (deletes resource options ∷ log) = suc (sent log)
sent (_ ∷ log) = sent log

delete_live-sent :
    (env : Env) (options : DeleteOptions) (resource : Unstructured) (reply : Reply) (log : Log)
    → sent (delete_live env options resource reply log).1 ≤ sent log + 1
unfolding delete_live
delete_live-sent env options resource (failed not_found) log = omega arith
delete_live-sent env options resource (failed _) log = omega arith
delete_live-sent env options resource (live uid) log = elim (Bool-cases (uid == resource.uid)) [
  | inl e ↦ simp e (omega arith)
  | inr e ↦ simp e (omega arith)
]

perform_allowed-sent :
    (env : Env) (v : Verdict) (options : DeleteOptions) (resource : Unstructured) (log : Log)
    → sent (perform_allowed env v options resource log).1 ≤ sent log + 1
unfolding perform_allowed get_and_delete
perform_allowed-sent env (refuse r) options resource log = omega arith
perform_allowed-sent env allow options resource log =
    delete_live-sent env options resource (env.get log resource) _

delete_resource-sent :
    (env : Env) (gate : Option Gate) (behavior : BehaviorSpec) (resource : Unstructured) (log : Log)
    → sent (delete_resource env gate behavior resource log).1 ≤ sent log + 1
unfolding delete_resource perform_resource_deletion
delete_resource-sent env gate behavior resource log = elim (Bool-cases (env.wait log)) [
  | inl e ↦ simp (delete_resource, e) (omega arith)
  | inr e ↦ elim (Bool-cases behavior.dry_run) [
    | inl d ↦ simp (delete_resource, e, d) (omega arith)
    | inr d ↦
        simp (delete_resource, e, d)
          (perform_allowed-sent env (verdict gate resource behavior) (build_delete_options behavior)
            resource (waited ∷ log))
  ]
]

count_outcome-sent :
    (dry_run : Bool) (resource : Unstructured) (outcome : Option (Option Failure)) (t : Tally)
    (log : Log)
    → sent (count_outcome dry_run resource outcome t log).1 ≡ sent log
unfolding count_outcome
count_outcome-sent dry_run resource none t log = refl
count_outcome-sent dry_run resource (some (some e)) t log = refl
count_outcome-sent true resource (some none) t log = refl
count_outcome-sent false resource (some none) t log = refl

abbrev IsDryRun : BehaviorSpec → Type 0
IsDryRun behavior = behavior.dry_run ≡ true

-- No DELETE of a dry run is justified.
not-Justified :
    (gate : Option Gate) (resource : Unstructured) (options : DeleteOptions) (log : Log)
    → ¬ Justified gate IsDryRun resource options log
not-Justified gate resource options [] h = h
not-Justified gate resource options (got r (live uid) ∷ log) (_, _, (behavior, d, _, wet, _)) =
    cc (sym d, wet)
not-Justified gate resource options (got r (failed e) ∷ log) h = h
not-Justified gate resource options (_ ∷ log) h = h

sent_of_dry_run : (gate : Option Gate) (log : Log) → IsSafe gate IsDryRun log → sent log ≡ 0
sent_of_dry_run gate [] h = refl
sent_of_dry_run gate (deletes resource options ∷ log) h =
    absurd (not-Justified gate resource options log h.0)
sent_of_dry_run gate (_ ∷ log) h = sent_of_dry_run gate log h

-- Retries with an attempt that sends at most one DELETE.
retry_loop-sent :
    (env : Env) (try : Log → Option Failure × Log)
    → ((log : Log) → sent (try log).1 ≤ sent log + 1)
    → (fuel : ℕ) (b : Backoff) (last : Option ApiError) (log : Log) → b.step ≤ b.backoff.steps
    → sent (retry_loop env try fuel b last log).1 + b.step ≤ sent log + b.backoff.steps
unfolding retry_loop
retry_loop-sent env try each zero b last log l = omega arith
retry_loop-sent env try each (suc fuel) b last log l =
    let rest =
      λ (e : ApiError). retry_loop env try fuel (next b).0 (some e) (slept ∷ (try log).1) in
    let one : sent (try log).1 ≤ sent log + 1 = each log in
    elim (Bool-cases (is_exhausted b)) [
      | inl x ↦ simp x (omega arith)
      | inr x ↦
          let (same, grown, room) = next_room b l x in
          let steps : (next b).0.backoff.steps ≡ b.backoff.steps = ap (λ c. c.steps) same in
          elim (Bool-cases (env.done log)) [
            | inl d ↦ simp (x, d) (omega arith)
            | inr d ↦
                simp (x, d)
                  (follow_attempt_keeps (λ l. sent l + b.step ≤ sent log + b.backoff.steps) env
                    (next b).1 (try log).1 rest (after_attempt (try log).0) (omega arith)
                    (omega arith)
                    (λ e. omega (
                      arith,
                      retry_loop-sent env try each fuel (next b).0 (some e) (slept ∷ (try log).1)
                          (omega arith),
                    )))
          ]
    ]

delete_one-sent :
    (env : Env) (gate : Option Gate) (behavior : BehaviorSpec) (resource : Unstructured) (t : Tally)
    (log : Log)
    → sent (delete_one env gate behavior resource t log).1 ≤ sent log + 5
unfolding delete_one delete_resource_with_backoff new_backoff default_config
delete_one-sent env gate behavior resource t log =
    let outcome = delete_resource_with_backoff env gate behavior resource (waited ∷ log) in
    let tried =
      retry_loop-sent env (delete_resource env gate behavior resource)
        (delete_resource-sent env gate behavior resource) fuel
        (new_backoff (default_config env.floats)) none (waited ∷ log) (omega arith) in
    elim (Bool-cases (env.wait log)) [
      | inl e ↦ simp (delete_one, e) (omega arith)
      | inr e ↦
          simp (delete_one, e)
            (omega
              (arith, tried, count_outcome-sent behavior.dry_run resource outcome.0 t outcome.1))
    ]

delete_batch_from-sent :
    (env : Env) (gate : Option Gate) (behavior : BehaviorSpec) (i : ℕ) (batch : List Unstructured)
    (t : Tally) (log : Log)
    → sent (delete_batch_from env gate behavior i batch t log).1 ≤ sent log + 5 * length batch
unfolding delete_batch_from
delete_batch_from-sent env gate behavior i [] t log = omega arith
delete_batch_from-sent env gate behavior i (resource ∷ more) t log =
    let one = delete_one env gate behavior resource t log in
    let ih = delete_batch_from-sent env gate behavior (suc i) more one.0 one.1 in
    let first = delete_one-sent env gate behavior resource t log in
    elim (Bool-cases (eqb (i % 50) 0 && env.done log)) [
      | inl e ↦ rw e (omega arith)
      | inr e ↦ rw e (omega (arith, ih, first))
    ]

-- Deleting a batch sends at most five DELETEs for each of its resources, and none in a dry run.
pub delete_batch-sent :
    (env : Env) (gate : Option Gate) (behavior : BehaviorSpec) (batch : List Unstructured)
    → (sent (delete_batch env gate behavior batch []).1 ≤ 5 * length batch)
      × (behavior.dry_run ≡ true → sent (delete_batch env gate behavior batch []).1 ≡ 0)
unfolding delete_batch
delete_batch-sent env gate behavior batch = (
  omega (
    arith,
    delete_batch_from-sent env gate behavior 0 batch (record { deleted = 0; errors = 0 }) [],
  ),
  λ d.
      sent_of_dry_run gate (delete_batch env gate behavior batch []).1
        (delete_batch-IsSafe env gate IsDryRun behavior d batch [] tt),
)
