-- ===== src/Examples/Statuses.antt =====
-- Status updates on examples.
use zen_cleaner.Prelude.{◌≡◌, none, some, true, false, List, [], ◌∷◌, if◌then◌else◌, arith}
use zen_cleaner.Prelude.Int.{pos, ◌+ℤ◌}
use zen_cleaner.Api.{ZenCleanerPolicy}
use zen_cleaner.Controller.Status.{
  get_requeue_interval_for_policy, no_status, Counts, update_status,
}
use zen_cleaner.Controller.Status.Laws.{update_status-next_gc_run}
use zen_cleaner.Controller.Target.{target_configuration_invalid}
use zen_cleaner.Controller.Status.Writes.{Answers, Write, counts_of, target_condition, write_all}
use zen_cleaner.Controller.Status.Writes.WellFormed.{IsWellFormed, write_all-IsWellFormed}
use zen_cleaner.Examples.{clean_jobs}

abbrev policy : ZenCleanerPolicy
policy = record {
  namespace = "jobs";
  name = "clean";
  uid = "p1";
  annotations = [];
  spec = clean_jobs;
  phase = "Error";
}

abbrev counts : Counts
counts = record { matched = pos 3; deleted = pos 1; pending = pos 2; refusals = [] }

update_status-next_gc_run_example :
    (update_status (some no_status) policy counts (pos 5) none).next_gc_run ≡ (
      if policy.spec.paused
      then none
      else some (pos 5 +ℤ get_requeue_interval_for_policy none policy.spec))
update_status-next_gc_run_example =
    update_status-next_gc_run (some no_status) policy counts (pos 5) none

-- The target is refused, the counts are written, and the last update fails.
abbrev writes : List (Write × Answers)
writes =
    (
      target_condition (some target_configuration_invalid) "no version" (pos 5),
      record { get_fails = false; update_fails = false },
    )
    ∷ (counts_of policy counts (pos 6) none, record { get_fails = false; update_fails = false })
    ∷ (target_condition none "" (pos 7), record { get_fails = false; update_fails = true })
    ∷ []

write_all-IsWellFormed_example : IsWellFormed (write_all writes none)
write_all-IsWellFormed_example =
    write_all-IsWellFormed writes none (record { few = omega arith; distinct = tt })
