-- ===== src/Controller/Reconcile/Evaluation/Safe.antt =====
-- No DELETE is sent by a sequence of reconciles but behind the gate and the UID precondition, and for
-- a policy that was runnable.
use zen_cleaner.Prelude.{String, sym, subst, inl, inr, Option, none, some, List, [], ◌∷◌}
use zen_cleaner.Unstructured.{Unstructured}
use zen_cleaner.Api.{BehaviorSpec, ZenCleanerPolicy}
use zen_cleaner.Safety.{Gate}
use zen_cleaner.Validation.Gvr.{parsed, failed, parse_gvr}
use zen_cleaner.Controller.Deletion.{Tally, got, Log, Env, delete_batch}
use zen_cleaner.Controller.Deletion.Safe.{IsSafe, delete_batch-IsSafe}
use zen_cleaner.Controller.Batches.{resolve_batch_size}
use zen_cleaner.Controller.Batches.Keeps.{if-keeps, delete_resources_in_batches-keeps}
use zen_cleaner.Controller.Receipt.{
  ExecutionReceipt, Digest, Before, nothing_before, observe_before, observe_after,
  execute_with_receipt,
}
use zen_cleaner.Controller.Evaluation.{evaluate_resources}
use zen_cleaner.Controller.Cycle.{delete_batch_with_receipt, delete_planned_list, evaluate_policy}
use zen_cleaner.Controller.Reconcile.{
  Fetched, absent, fetch_failed, present, EvaluationError, target_capability, evaluation_failed,
  State, Evaluator, Reconciler, after_evaluation, reconcile,
}
use zen_cleaner.Controller.Reconcile.Runs.{
  IsRunnable, IsRunnable-cases, prepared, prepared-SameWork, reconcile_present_lem,
}
use zen_cleaner.Controller.Reconcile.Lifecycle.{Schedule, reconcile_all}
use zen_cleaner.Controller.Reconcile.Evaluation.{
  Cycles, log_of, follow_cycle, resources_of, follow_gvr, evaluate,
}

module _ (gate : Option Gate) (allowed : BehaviorSpec → Type 0) (env : Env) where
  -- A Get deletes nothing.
  observe_before-IsSafe :
      (batch : List Unstructured) (before : Before) (log : Log)
      → IsSafe gate allowed log
      → IsSafe gate allowed (observe_before env batch before log).1
  unfolding observe_before
  observe_before-IsSafe [] before log h = h
  observe_before-IsSafe (o ∷ more) before log h =
      observe_before-IsSafe more _ (got o (env.get log o) ∷ log) h

  observe_after-IsSafe :
      (before : Before) (batch : List Unstructured) (log : Log)
      → IsSafe gate allowed log
      → IsSafe gate allowed (observe_after env before batch log).1
  unfolding observe_after
  observe_after-IsSafe before [] log h = h
  observe_after-IsSafe before (o ∷ more) log h =
      observe_after-IsSafe before more (got o (env.get log o) ∷ log) h

  pub delete_batch_with_receipt-IsSafe :
      (digest : Digest) (behavior : BehaviorSpec) (batch : List Unstructured) (log : Log)
      → allowed behavior
      → IsSafe gate allowed log
      → IsSafe gate allowed (delete_batch_with_receipt env digest gate behavior batch log).1
  unfolding delete_batch_with_receipt execute_with_receipt
  delete_batch_with_receipt-IsSafe digest behavior batch log a h =
      let (before, log1) = observe_before env batch nothing_before log in
      let (t, log2) = delete_batch env gate behavior batch log1 in
      let safe = delete_batch-IsSafe env gate allowed behavior a batch in
      let before_safe = observe_before-IsSafe batch nothing_before log h in
      if-keeps {A = Tally × Option ExecutionReceipt × Log} (λ x. IsSafe gate allowed x.2)
        behavior.dry_run (safe log h)
        (observe_after-IsSafe before batch log2 (safe log1 before_safe))

module _ (c : Cycles) (allowed : BehaviorSpec → Type 0) where
  abbrev Safe : Log → Type 0
  Safe log = IsSafe c.service.gate allowed log

  delete_planned_list-IsSafe :
      (behavior : BehaviorSpec) (planned : List Unstructured) (log : Log)
      → allowed behavior
      → Safe log
      → Safe (log_of (delete_planned_list c.service behavior planned log) log)
  unfolding delete_planned_list
  delete_planned_list-IsSafe behavior [] log a h = h
  delete_planned_list-IsSafe behavior (resource ∷ more) log a h =
      let service = c.service in
      delete_resources_in_batches-keeps Safe service.env.done
        (delete_batch_with_receipt service.env service.digest service.gate behavior)
        (λ batch l k.
          delete_batch_with_receipt-IsSafe service.gate allowed service.env service.digest behavior
            batch l a k)
        service.has_limiter (resolve_batch_size behavior service.batch_size) (resource ∷ more) log h

  pub evaluate-IsSafe :
      (policy : ZenCleanerPolicy) (s : State)
      → allowed policy.spec.behavior
      → Safe s.log
      → Safe (evaluate c policy s).1.log
  unfolding evaluate follow_gvr follow_cycle evaluate_policy
  evaluate-IsSafe policy s a h =
      let target = policy.spec.target_resource in
      elim (parse_gvr c.parse_group_version c.to_lower target.api_version target.kind)
        as (λ g. Safe (follow_gvr c policy s g).1.log) [
          | failed e ↦ h
          | parsed gvr ↦
              delete_planned_list-IsSafe policy.spec.behavior
                (evaluate_resources c.service.surroundings c.service.gate policy.spec
                  (resources_of c policy)).to_delete
                s.log a h
        ]

module _ (r : Reconciler) (allowed : BehaviorSpec → Type 0) where
  -- A runnable policy that a reconcile finds has an allowed behavior.
  abbrev pub Sanctions : Fetched → Type 0
  Sanctions absent = Unit
  Sanctions fetch_failed = Unit
  Sanctions (present policy) = IsRunnable r policy → allowed policy.spec.behavior

  abbrev pub SanctionsAll : Schedule → Type 0
  SanctionsAll [] = Unit
  SanctionsAll ((nn, fetched) ∷ more) = Sanctions fetched × SanctionsAll more

-- What every evaluation of a policy with an allowed behavior keeps of the log, the reconciles keep.
module _ (r : Reconciler) (e : Evaluator) (P : Log → Type 0) (allowed : BehaviorSpec → Type 0) where
  after_evaluation-keeps :
      (policy : ZenCleanerPolicy) (x : Option EvaluationError) (t : State)
      → P t.log
      → P (after_evaluation r policy (x, t)).1.log
  unfolding after_evaluation
  after_evaluation-keeps policy none t h = h
  after_evaluation-keeps policy (some (target_capability x)) t h = h
  after_evaluation-keeps policy (some evaluation_failed) t h = h

  module _
      (keeps : (policy : ZenCleanerPolicy) (s : State)
        → allowed policy.spec.behavior
        → P s.log
        → P (e.run_evaluation policy s).1.log) where
    reconcile-keeps :
        (nn : String) (fetched : Fetched) (s : State)
        → Sanctions r allowed fetched
        → P s.log
        → P (reconcile r e nn fetched s).1.log
    unfolding reconcile
    reconcile-keeps nn absent s a h = h
    reconcile-keeps nn fetch_failed s a h = h
    reconcile-keeps nn (present policy) s a h =
        let (runs, idles) = reconcile_present_lem r e nn policy s in
        let t = prepared r nn policy s in
        elim (IsRunnable-cases r policy) [
          | inl runnable ↦
              subst (λ x. P x.1.log) (sym (runs runnable))
                (after_evaluation-keeps policy (e.run_evaluation policy t).0
                  (e.run_evaluation policy t).1
                  (keeps policy t (a runnable)
                    (subst P (sym (prepared-SameWork r nn policy s).log) h)))
          | inr idle ↦ subst P (sym (idles idle).log) h
        ]

    pub reconcile_all-keeps :
        (schedule : Schedule) (s : State)
        → SanctionsAll r allowed schedule
        → P s.log
        → P (reconcile_all r e schedule s).log
    reconcile_all-keeps [] s a h = h
    reconcile_all-keeps ((nn, fetched) ∷ more) s (a, b) h =
        reconcile_all-keeps more (reconcile r e nn fetched s).1 b (reconcile-keeps nn fetched s a h)
