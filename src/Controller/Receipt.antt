-- ===== src/Controller/Receipt.antt =====
-- pkg/controller/execution_receipt.go and execution_path.go: what a bounded execution reports of each
-- planned object. The texts of errors and the times of a receipt are left out. The sort and the hash
-- of the plan's digest are arguments.
pub mod Overall
pub mod Honest
use zen_cleaner.Prelude.{
  ◌/◌, ◌<◌, String, ◌<>◌, Bool, true, false, not, ◌&&◌, Option, none, some, List, [], ◌∷◌, map,
  ◌==◌, if◌then◌else◌, lookup, insert,
}
use zen_cleaner.Unstructured.{Unstructured}
use zen_cleaner.Api.{BehaviorSpec}
use zen_cleaner.Safety.{Gate}
use zen_cleaner.Controller.Deletion.{
  ApiError, not_found, Reply, live, failed, DeleteOptions, background, Event, got, deletes, Log,
  Env, Tally, delete_batch,
}

pub data ObjectResultClass : Type 0 where
  succeeded already_absent skipped_precondition_mismatch failure : ObjectResultClass

pub record ObjectResult : Type 0 where
  pub object : Unstructured
  pub class : ObjectResultClass

abbrev pub Digest : Type 0
Digest = List String → String

pub record ExecutionReceipt : Type 0 where
  pub plan_digest : String
  pub results : List ObjectResult
  pub overall_status : String

compute_overall_from : String → List ObjectResult → String
compute_overall_from status [] = status
compute_overall_from status (r ∷ more) =
    let kept = compute_overall_from status more in
    let partial = compute_overall_from "PARTIAL" more in
    elim r.class [
      | failure ↦ "FAILED"
      | skipped_precondition_mismatch ↦ partial
      | succeeded ↦ kept
      | already_absent ↦ kept
    ]

unfoldable pub compute_overall : List ObjectResult → String
unfolding compute_overall_from
compute_overall results = compute_overall_from "SUCCEEDED" results

unfoldable pub object_id : Unstructured → String
object_id o = o.namespace <> ("/" <> (o.kind <> ("/" <> (o.name <> ("/" <> o.uid)))))

unfoldable pub plan_digest : Digest → List Unstructured → String
plan_digest digest objects = digest (map object_id objects)

-- The options of a Delete without any: the server's default.
abbrev no_options : DeleteOptions
no_options = record { grace_period_seconds = none; propagation_policy = background }

delete_error_class : Option ApiError → ObjectResultClass
delete_error_class none = succeeded
delete_error_class (some not_found) = already_absent
delete_error_class (some e) = failure

delete_planned : Env → Unstructured → Reply → Log → ObjectResultClass × Log
unfolding delete_error_class
delete_planned env obj (failed not_found) log = (already_absent, log)
delete_planned env obj (failed e) log = (failure, log)
delete_planned env obj (live uid) log =
    if not (obj.uid == "") && not (uid == obj.uid)
    then (skipped_precondition_mismatch, log)
    else (delete_error_class (env.delete log obj), deletes obj no_options ∷ log)

unfoldable pub delete_each : Env → List Unstructured → Log → List ObjectResult × Log
unfolding delete_planned
delete_each env [] log = ([], log)
delete_each env (obj ∷ more) log =
    let reply = env.get log obj in
    let (class, log') = delete_planned env obj reply (got obj reply ∷ log) in
    let (results, log'') = delete_each env more log' in
    (record { object = obj; class = class } ∷ results, log'')

unfoldable pub delete_with_receipt : Env → Digest → List Unstructured → Log → ExecutionReceipt × Log
delete_with_receipt env digest planned log =
    let (results, log') = delete_each env planned log in
    (
      record {
        plan_digest = plan_digest digest planned;
        results = results;
        overall_status = compute_overall results;
      },
      log',
    )

unfoldable pub object_key : Unstructured → String
object_key o = o.namespace <> ("/" <> (o.kind <> ("/" <> o.name)))

unfoldable pub uid_mismatch : String → String → Bool
uid_mismatch planned current = not (planned == "") && not (current == planned)

-- `plannedUID` and `prePresent`.
pub record Before : Type 0 where
  pub planned_uid : List (String × String)
  pub pre_present : List (String × Bool)

abbrev is_live : Reply → Bool
is_live (live uid) = true
is_live (failed e) = false

unfoldable pub observe_before : Env → List Unstructured → Before → Log → Before × Log
observe_before env [] before log = (before, log)
observe_before env (o ∷ more) before log =
    let reply = env.get log o in
    observe_before env more
      (record {
        planned_uid = insert (object_key o) o.uid before.planned_uid;
        pre_present = insert (object_key o) (is_live reply) before.pre_present;
      })
      (got o reply ∷ log)

-- A missing key reads as the zero value.
abbrev or_empty : Option String → String
or_empty none = ""
or_empty (some s) = s

abbrev or_false : Option Bool → Bool
or_false none = false
or_false (some b) = b

unfoldable pub classify_observed : Before → Unstructured → Reply → ObjectResultClass
classify_observed before o (failed not_found) =
    if or_false (lookup (object_key o) before.pre_present) then succeeded else already_absent
classify_observed before o (failed e) = failure
classify_observed before o (live uid) =
    if uid_mismatch (or_empty (lookup (object_key o) before.planned_uid)) uid
    then skipped_precondition_mismatch
    else failure

unfoldable pub observe_after : Env → Before → List Unstructured → Log → List ObjectResult × Log
observe_after env before [] log = ([], log)
observe_after env before (o ∷ more) log =
    let reply = env.get log o in
    let (results, log') = observe_after env before more (got o reply ∷ log) in
    (record { object = o; class = classify_observed before o reply } ∷ results, log')

abbrev pub nothing_before : Before
nothing_before = record { planned_uid = []; pre_present = [] }

-- A dry run writes no receipt.
unfoldable pub execute_with_receipt :
    Env
    → Digest
    → Option Gate
    → BehaviorSpec
    → List Unstructured
    → Log
    → Tally × Option ExecutionReceipt × Log
execute_with_receipt env digest gate behavior batch log =
    let (dry, dry_log) = delete_batch env gate behavior batch log in
    let (before, log1) = observe_before env batch nothing_before log in
    let (t, log2) = delete_batch env gate behavior batch log1 in
    let (results, log3) = observe_after env before batch log2 in
    if behavior.dry_run then (dry, none, dry_log) else (
      t,
      some (record {
        plan_digest = plan_digest digest batch;
        results = results;
        overall_status = compute_overall results;
      }),
      log3,
    )
