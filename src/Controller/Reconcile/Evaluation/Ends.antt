-- ===== src/Controller/Reconcile/Evaluation/Ends.antt =====
-- The evaluation fills the interface of the reconcile loop, and a runnable policy is cleaned up.
use zen_cleaner.Prelude.{
  Bool, true, false, ℕ, ◌-◌, ◌<◌, String, ◌≡◌, refl, sym, ap, subst, ◌∙◌, Option, none, some, List,
  [], ◌∷◌,
}
use zen_cleaner.Prelude.Int.{pos}
use zen_cleaner.Unstructured.{Unstructured}
use zen_cleaner.Api.{ZenCleanerPolicy}
use zen_cleaner.Validation.Gvr.{GroupVersionResource, GvrError, Parsed, parsed, failed, parse_gvr}
use zen_cleaner.Controller.Batches.{resolve_batch_size}
use zen_cleaner.Controller.Evaluation.Counts.{total}
use zen_cleaner.Controller.Status.{get_requeue_interval_for_policy}
use zen_cleaner.Controller.Cycle.{Cycle, evaluate_policy}
use zen_cleaner.Controller.Cycle.Counts.{EndsWithin, evaluate_policy-EndsWithin}
use zen_cleaner.Controller.Tracking.{Tracked, get_or_create_rate_limiter}
use zen_cleaner.Controller.Reconcile.{
  evaluation_failed, present, Result, State, Evaluator, Reconciler, requeue_after, thirty_seconds,
  after_evaluation, reconcile,
}
use zen_cleaner.Controller.Reconcile.Runs.{
  IsRunnable, prepared, reconcile_present_lem, prepared-SameWork,
}
use zen_cleaner.Controller.Reconcile.Evaluation.{
  Cycles, log_of, limit, follow_cycle, resources_of, follow_gvr, evaluate,
}

-- The names, the UIDs and the specs that are tracked.
abbrev pub Kept : State → State → Type 0
Kept s t =
    (t.tracked.policy_uids ≡ s.tracked.policy_uids)
    × (t.tracked.policy_specs ≡ s.tracked.policy_specs)

limit-Kept :
    (done : Bool) (p : ZenCleanerPolicy) (rs : List Unstructured) (t : Tracked)
    → ((limit done p rs t).policy_uids ≡ t.policy_uids)
      × ((limit done p rs t).policy_specs ≡ t.policy_specs)
unfolding limit get_or_create_rate_limiter
limit-Kept done p [] t = (refl, refl)
limit-Kept true p (r ∷ rs) t = (refl, refl)
limit-Kept false p (r ∷ rs) t = (refl, refl)

pub follow_cycle-Kept :
    (c : Cycles) (done : Bool) (p : ZenCleanerPolicy) (s : State) (o : Option Cycle)
    → Kept s (follow_cycle c done p s o).1
unfolding follow_cycle
follow_cycle-Kept c done p s none = (refl, refl)
follow_cycle-Kept c done p s (some cycle) = limit-Kept done p cycle.plan.to_delete s.tracked

follow_gvr-Kept :
    (c : Cycles) (p : ZenCleanerPolicy) (s : State) (g : Parsed) → Kept s (follow_gvr c p s g).1
unfolding follow_gvr
follow_gvr-Kept c p s (failed e) = (refl, refl)
follow_gvr-Kept c p s (parsed gvr) =
    follow_cycle-Kept c (c.service.env.done s.log) p s
      (evaluate_policy c.service p.spec (some (resources_of c p)) s.log)

pub evaluate-Kept : (c : Cycles) (p : ZenCleanerPolicy) (s : State) → Kept s (evaluate c p s).1
unfolding evaluate
evaluate-Kept c p s =
    let target = p.spec.target_resource in
    follow_gvr-Kept c p s
      (parse_gvr c.parse_group_version c.to_lower target.api_version target.kind)

abbrev pub evaluator : Cycles → Evaluator
evaluator c = record {
  run_evaluation = evaluate c;
  keeps_uids = λ p s. (evaluate-Kept c p s).0;
  keeps_specs = λ p s. (evaluate-Kept c p s).1;
}

module _ (r : Reconciler) (c : Cycles) (nn : String) (p : ZenCleanerPolicy) (s : State) where
  abbrev pub gvr_parse : Parsed
  gvr_parse =
      parse_gvr c.parse_group_version c.to_lower p.spec.target_resource.api_version
        p.spec.target_resource.kind

  follow_cycle-requeue :
      (done : Bool) (t : State) (cycle : Cycle)
      → c.status_fails p ≡ false
      → let a = after_evaluation r p (follow_cycle c done p t (some cycle)) in
        (a.0 ≡ requeue_after (get_requeue_interval_for_policy r.cleanup_interval p.spec))
        × (a.1.log ≡ log_of cycle.run t.log)
  unfolding follow_cycle after_evaluation
  follow_cycle-requeue done t cycle h = simp h (refl, refl)

  evaluate_parsed :
      (gvr : GroupVersionResource) (t : State)
      → gvr_parse ≡ parsed gvr
      → evaluate c p t
        ≡ follow_cycle c
            (c.service.env.done t.log)
            p
            t
            (evaluate_policy c.service p.spec (some (resources_of c p)) t.log)
  unfolding evaluate follow_gvr
  evaluate_parsed gvr t h = simp h refl

  evaluate_unparsed :
      (e : GvrError) (t : State)
      → gvr_parse ≡ failed e
      → evaluate c p t ≡ (some evaluation_failed, t)
  unfolding evaluate follow_gvr
  evaluate_unparsed e t h = simp h refl

  -- What a reconcile that cleans up has: a cycle over the listed resources that ends within its
  -- counts, whose log is the log that it leaves, and the requeue after the policy's interval.
  pub record CleansUp (result : Result × State) : Type 0 where
    pub cycle : Cycle
    pub cycled : evaluate_policy c.service p.spec (some (resources_of c p)) s.log ≡ some cycle
    pub ends :
        EndsWithin (cycle.plan.matched - cycle.plan.pending - total cycle.plan.refusals) cycle.run
    pub requeued :
        result.0 ≡ requeue_after (get_requeue_interval_for_policy r.cleanup_interval p.spec)
    pub logged : result.1.log ≡ log_of cycle.run s.log

  -- An evaluation from any state with the same log.
  pub evaluate-CleansUp :
      (t : State) (gvr : GroupVersionResource) (size : ℕ)
      → t.log ≡ s.log
      → gvr_parse ≡ parsed gvr
      → c.status_fails p ≡ false
      → resolve_batch_size p.spec.behavior c.service.batch_size ≡ pos size
      → 0 < size
      → CleansUp (after_evaluation r p (evaluate c p t))
  evaluate-CleansUp t gvr size same h ok sized positive =
      let (cycle, cycled, ends) =
        evaluate_policy-EndsWithin c.service p.spec (resources_of c p) s.log size sized positive in
      let runs : after_evaluation r p (evaluate c p t)
          ≡ after_evaluation r p (follow_cycle c (c.service.env.done t.log) p t (some cycle)) =
        ap (after_evaluation r p) (
          evaluate_parsed gvr t h
          ∙ ap
              (λ l.
                follow_cycle c (c.service.env.done t.log) p t
                  (evaluate_policy c.service p.spec (some (resources_of c p)) l))
              same
          ∙ ap (follow_cycle c (c.service.env.done t.log) p t) cycled) in
      let (requeued, logged) = follow_cycle-requeue (c.service.env.done t.log) t cycle ok in
      record {
        cycle = cycle;
        cycled = cycled;
        ends = ends;
        requeued = ap (λ a. a.0) runs ∙ requeued;
        logged = ap (λ a. a.1.log) runs ∙ logged ∙ ap (log_of cycle.run) same;
      }

  -- A runnable policy whose API version and kind parse, whose batch size is positive and the write
  -- of whose status succeeds is cleaned up by the service of its target.
  reconcile-CleansUp :
      (gvr : GroupVersionResource) (size : ℕ)
      → IsRunnable r p
      → gvr_parse ≡ parsed gvr
      → c.status_fails p ≡ false
      → resolve_batch_size p.spec.behavior c.service.batch_size ≡ pos size
      → 0 < size
      → CleansUp (reconcile r (evaluator c) nn (present p) s)
  reconcile-CleansUp gvr size runnable h ok sized positive =
      subst CleansUp (sym ((reconcile_present_lem r (evaluator c) nn p s).0 runnable)) (
        evaluate-CleansUp (prepared r nn p s) gvr size (prepared-SameWork r nn p s).log h ok sized
          positive)

  -- A runnable policy whose API version and kind do not parse is tried again every thirty seconds,
  -- and nothing is sent for it.
  reconcile-unparsed :
      (e : GvrError)
      → IsRunnable r p
      → gvr_parse ≡ failed e
      → ((reconcile r (evaluator c) nn (present p) s).0 ≡ requeue_after thirty_seconds)
        × ((reconcile r (evaluator c) nn (present p) s).1.log ≡ s.log)
  unfolding after_evaluation
  reconcile-unparsed e runnable h =
      let t = prepared r nn p s in
      let runs : reconcile r (evaluator c) nn (present p) s ≡ (requeue_after thirty_seconds, t) =
        (reconcile_present_lem r (evaluator c) nn p s).0 runnable
        ∙ ap (after_evaluation r p) (evaluate_unparsed e t h) in
      (ap (λ a. a.0) runs, ap (λ a. a.1.log) runs ∙ (prepared-SameWork r nn p s).log)
