-- ===== src/Controller/Receipt/Honest.antt =====
-- What a receipt promises of the cluster.
use zen_cleaner.Prelude.{
  ◌≡◌, refl, ap, ◌⊎◌, inl, inr, true, false, Option, none, some, List, [], ◌∷◌, ◌++◌, map, arith,
  ◌==◌, eq_iff, Bool-cases, All,
}
use zen_cleaner.Unstructured.{Unstructured}
use zen_cleaner.Api.{BehaviorSpec}
use zen_cleaner.Safety.{Gate}
use zen_cleaner.Controller.Receipt.Overall.{IsEffective, compute_overall_iff}
use zen_cleaner.Controller.Deletion.{
  not_found, Reply, live, failed, got, deletes, Log, Env, delete_batch,
}
use zen_cleaner.Controller.Receipt.{
  succeeded, already_absent, ObjectResult, Digest, ExecutionReceipt, compute_overall, plan_digest,
  delete_planned, delete_each, delete_with_receipt, Before, nothing_before, observe_before,
  classify_observed, observe_after, execute_with_receipt,
}

abbrev pub objects : List ObjectResult → List Unstructured
objects results = map (λ r. r.object) results

observe_after-objects :
    (env : Env) (before : Before) (batch : List Unstructured) (log : Log)
    → objects (observe_after env before batch log).0 ≡ batch
unfolding observe_after
observe_after-objects env before [] log = refl
observe_after-objects env before (o ∷ more) log =
    ap (λ r. o ∷ r) (observe_after-objects env before more (got o (env.get log o) ∷ log))

-- At some point after a log, the server no longer has the object.
abbrev pub GoneAfter : Env → Log → Unstructured → Type 0
GoneAfter env log o = (new : Log) × (env.get (new ++ log) o ≡ failed not_found)

classify_observed-gone :
    (before : Before) (o : Unstructured) (reply : Reply)
    → (classify_observed before o reply ≡ succeeded)
      ⊎ (classify_observed before o reply ≡ already_absent)
    → reply ≡ failed not_found
unfolding classify_observed
classify_observed-gone before o (failed not_found) h = refl
classify_observed-gone before o (failed e) h = ground arith
classify_observed-gone before o (live uid) h = ground arith

observe_after-gone :
    (env : Env) (before : Before) (batch : List Unstructured) (new log : Log)
    → All IsEffective (observe_after env before batch (new ++ log)).0
    → All (GoneAfter env log) batch
unfolding observe_after
observe_after-gone env before [] new log h = tt
observe_after-gone env before (o ∷ more) new log (e, h) = (
  (new, classify_observed-gone before o (env.get (new ++ log) o) e),
  observe_after-gone env before more (got o (env.get (new ++ log) o) ∷ new) log h,
)

-- A dry run writes no receipt. Any other execution writes one, with one result for each object of
-- the batch, in its order; where it says SUCCEEDED, the server has answered for every object of the
-- batch that it is gone, after the last deletion.
pub execute_with_receipt-honest :
    (env : Env) (digest : Digest) (gate : Option Gate) (behavior : BehaviorSpec)
    (batch : List Unstructured) (log : Log)
    → (behavior.dry_run ≡ true → (execute_with_receipt env digest gate behavior batch log).1 ≡ none)
      × (behavior.dry_run ≡ false
          → (receipt : ExecutionReceipt) × ((execute_with_receipt env digest gate behavior batch
                log).1
              ≡ some receipt)
            × (objects receipt.results ≡ batch)
            × (receipt.plan_digest ≡ plan_digest digest batch)
            × (receipt.overall_status ≡ "SUCCEEDED"
                → All
                    (GoneAfter env
                      (delete_batch env gate behavior batch
                        (observe_before env batch nothing_before log).1).1)
                    batch))
unfolding execute_with_receipt
execute_with_receipt-honest env digest gate behavior batch log =
    let (before, log1) = observe_before env batch nothing_before log in
    let (t, log2) = delete_batch env gate behavior batch log1 in
    let (results, log3) = observe_after env before batch log2 in
    let receipt : ExecutionReceipt = record {
      plan_digest = plan_digest digest batch;
      results = results;
      overall_status = compute_overall results;
    } in
    (
      λ d. simp d,
      λ d. (
        receipt,
        simp d,
        observe_after-objects env before batch log2,
        refl,
        λ s. observe_after-gone env before batch [] log2 ((compute_overall_iff results).1.0 s),
      ),
    )

-- A Delete follows a Get of the same object, which gave the planned UID, if the plan has one.
abbrev Guard : Unstructured → Log → Type 0
Guard o (got p (live uid) ∷ log) = (p ≡ o) × ((uid ≡ o.uid) ⊎ (o.uid ≡ ""))
Guard o _ = ⊥

abbrev pub IsGuarded : Log → Type 0
IsGuarded [] = Unit
IsGuarded (deletes o options ∷ log) = Guard o log × IsGuarded log
IsGuarded (_ ∷ log) = IsGuarded log

delete_planned-IsGuarded :
    (env : Env) (obj : Unstructured) (reply : Reply) (log : Log)
    → IsGuarded log
    → IsGuarded (delete_planned env obj reply (got obj reply ∷ log)).1
unfolding delete_planned
delete_planned-IsGuarded env obj (failed not_found) log h = h
delete_planned-IsGuarded env obj (failed _) log h = h
delete_planned-IsGuarded env obj (live uid) log h = elim (Bool-cases (obj.uid == "")) [
  | inl b ↦ simp b ((refl, inr ((eq_iff obj.uid "").0 b)), h)
  | inr b ↦ elim (Bool-cases (uid == obj.uid)) [
    | inl c ↦ simp (b, c) ((refl, inl ((eq_iff uid obj.uid).0 c)), h)
    | inr c ↦ simp (b, c) h
  ]
]

delete_each-IsGuarded :
    (env : Env) (planned : List Unstructured) (log : Log)
    → IsGuarded log
    → IsGuarded (delete_each env planned log).1
unfolding delete_each
delete_each-IsGuarded env [] log h = h
delete_each-IsGuarded env (obj ∷ more) log h =
    let reply = env.get log obj in
    delete_each-IsGuarded env more (delete_planned env obj reply (got obj reply ∷ log)).1
      (delete_planned-IsGuarded env obj reply log h)

delete_each-objects :
    (env : Env) (planned : List Unstructured) (log : Log)
    → objects (delete_each env planned log).0 ≡ planned
unfolding delete_each
delete_each-objects env [] log = refl
delete_each-objects env (obj ∷ more) log =
    let reply = env.get log obj in
    ap (λ r. obj ∷ r)
      (delete_each-objects env more (delete_planned env obj reply (got obj reply ∷ log)).1)

-- The receipt of a planned set has one result for each planned object, in order, and its execution
-- deletes an object only after a Get that gave the planned UID, where the plan has one.
delete_with_receipt-IsGuarded :
    (env : Env) (digest : Digest) (planned : List Unstructured)
    → let (receipt, log) = delete_with_receipt env digest planned [] in
      (objects receipt.results ≡ planned) × IsGuarded log
unfolding delete_with_receipt
delete_with_receipt-IsGuarded env digest planned =
    (delete_each-objects env planned [], delete_each-IsGuarded env planned [] tt)
