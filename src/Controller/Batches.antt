-- ===== src/Controller/Batches.antt =====
-- pkg/controller/batch_config.go, and the loop over the batches of a deletion list:
-- `deleteResourcesInBatches` of evaluate_policy_refactored.go and `deleteResourcesInBatchesShared` of
-- evaluate_policy_shared.go. The deletion of one batch is an argument.
pub mod Partition
pub mod Keeps
use zen_cleaner.Prelude.{
  ℕ, zero, suc, ◌+◌, ◌-◌, Bool, Option, none, some, List, [], ◌∷◌, ltb, if◌then◌else◌, length, take,
  drop,
}
use zen_cleaner.Prelude.Int.{ℤ, pos, negsuc, ltb_ℤ}
use zen_cleaner.Unstructured.{Unstructured}
use zen_cleaner.Api.{BehaviorSpec}
use zen_cleaner.Controller.Deletion.{Log, Tally}

-- DefaultBatchSize.
abbrev default_batch_size : ℤ
default_batch_size = pos 50

-- `controller` is the batch size of the controller's configuration, if there is one.
unfoldable pub resolve_batch_size : BehaviorSpec → Option ℤ → ℤ
resolve_batch_size behavior none =
    if ltb_ℤ (pos 0) behavior.batch_size then behavior.batch_size else default_batch_size
resolve_batch_size behavior (some controller) =
    if ltb_ℤ (pos 0) behavior.batch_size then behavior.batch_size else controller

abbrev pub BatchDeleter : Type 0
BatchDeleter = List Unstructured → Log → Tally × Log

-- The deletion list has been worked through (or the context is cancelled), a slice bound is negative,
-- or the fuel is used up.
pub data Run : Type 0 where
  finished : ℕ → Log → Run
  panicked : Run
  out_of_fuel : Run

-- `resourcesToDelete[i:end]`.
unfoldable pub slice : {A : Type 0} → ℕ → ℕ → List A → List A
slice i end xs = take (end - i) (drop i xs)

unfoldable pub batch_end : ℕ → ℕ → ℕ → ℕ
batch_end size i n = if ltb n (i + size) then n else i + size

unfoldable pub delete_from :
    (Log → Bool) → BatchDeleter → ℕ → List Unstructured → ℕ → ℕ → ℕ → Log → Run
unfolding slice batch_end
delete_from done delete size resources zero i deleted log = out_of_fuel
delete_from done delete size resources (suc fuel) i deleted log =
    let (t, log') = delete (slice i (batch_end size i (length resources)) resources) log in
    let rest = delete_from done delete size resources fuel (i + size) (deleted + t.deleted) log' in
    if ltb i (length resources)
    then (if done log then finished deleted log else rest)
    else finished deleted log

-- A round for each resource and one to leave the loop are enough where the size is positive.
delete_sized : (Log → Bool) → BatchDeleter → ℤ → List Unstructured → Log → Run
unfolding delete_from
delete_sized done delete (pos size) resources log =
    delete_from done delete size resources (suc (length resources)) 0 0 log
delete_sized done delete (negsuc n) [] log = finished 0 log
delete_sized done delete (negsuc n) (resource ∷ more) log =
    if done log then finished 0 log else panicked

unfoldable pub delete_resources_in_batches_shared :
    (Log → Bool) → BatchDeleter → ℤ → List Unstructured → Log → Run
unfolding delete_sized
delete_resources_in_batches_shared done delete size [] log = finished 0 log
delete_resources_in_batches_shared done delete size (resource ∷ more) log =
    delete_sized done delete size (resource ∷ more) log

-- The service asks the context first, and does nothing without a rate limiter.
unfoldable pub delete_resources_in_batches :
    (Log → Bool) → Bool → BatchDeleter → ℤ → List Unstructured → Log → Run
unfolding delete_sized
delete_resources_in_batches done has_limiter delete size resources log =
    if done log
    then finished 0 log
    else if has_limiter
    then delete_sized done delete size resources log
    else finished 0 log
