-- ===== src/Examples/Plans.antt =====
-- An evaluation and its batches on examples.
use zen_cleaner.Prelude.{
  ◌≡◌, refl, sym, subst, ◌∙◌, ◌≢◌, ◌↔◌, true, some, List, [], ◌∷◌, arith, All, Any, lookup,
}
use zen_cleaner.Prelude.Int.{pos, ◌+ℤ◌, ◌*ℤ◌, wrap64}
use zen_cleaner.Unstructured.{Unstructured, Time}
use zen_cleaner.Safety.{
  evaluate_object, evaluate_present, is_protected_namespace, contains,
  excluded_by_label_or_annotation, is_exclusion_entry, Gate, new_gate,
}
use zen_cleaner.Ttl.{seconds, fixed_ttl_expiration, calculate_expiration_time}
use zen_cleaner.Ttl.Deadline.{Deadline, fixed, absent, number, mapped, relative}
use zen_cleaner.Prelude.Text.{trim_space, is_space}
use zen_cleaner.Controller.Selectors.{
  matches_selectors, namespace_matches, label_selector_matches, field_selector_matches,
}
use zen_cleaner.Controller.Expiry.{
  should_delete_by_ttl, meets, calculate_expiration_time_shared, convert_to_local_ttl_spec,
}
use zen_cleaner.Controller.Expiry.Laws.{IsDue, should_delete_by_ttl_iff}
use zen_cleaner.Controller.Evaluation.{gate_verdict, evaluate_resources}
use zen_cleaner.Controller.Evaluation.Counts.{IsBalanced, evaluate_resources-IsBalanced}
use zen_cleaner.Controller.Evaluation.Plans.{
  IsPlanned, to_delete-IsPlanned, evaluate_resources_complete,
}
use zen_cleaner.Controller.Deletion.{delete_batch}
use zen_cleaner.Controller.Batches.{delete_resources_in_batches_shared, BatchDeleter}
use zen_cleaner.Controller.Batches.Partition.{
  IsPartition, delete_resources_in_batches_shared-IsPartition,
}
use zen_cleaner.Examples.{
  config_map, old_map, system_map, one_minute, clean_jobs, careful, gate_config, clock, reading,
  surroundings, calm,
}

abbrev objects : List Unstructured
objects = old_map ∷ system_map ∷ config_map "jobs" "other" ∷ []

abbrev gate : Gate
gate = new_gate gate_config

never_zero : (e : Time) → Deadline clock.parse_rfc3339 old_map one_minute e → e ≢ pos 0
unfolding ◌+ℤ◌ ◌*ℤ◌ seconds wrap64
never_zero e (fixed n f q) z =
    let same : pos 60 ≡ n = cc in
    let zero_time = subst (λ m. old_map.creation +ℤ seconds m ≡ pos 0) (sym same) (sym q ∙ z) in
    ground (arith, zero_time)
never_zero e (absent n b i s d q) z = ground (arith, b.not_fixed)
never_zero e (number n b f q) z = ground (arith, b.not_fixed)
never_zero e (mapped value n b i q m l r) z = ground (arith, b.not_fixed)
never_zero e (relative text t n a b c d f g q) z = ground (arith, a)

should_delete_by_ttl_iff_example :
    ((should_delete_by_ttl reading old_map one_minute).0 ≡ true) ↔ IsDue reading old_map one_minute
should_delete_by_ttl_iff_example =
    should_delete_by_ttl_iff reading old_map one_minute (omega arith) never_zero

evaluate_resources-IsBalanced_example :
    IsBalanced (evaluate_resources surroundings (some gate) clean_jobs objects)
evaluate_resources-IsBalanced_example =
    evaluate_resources-IsBalanced surroundings (some gate) clean_jobs objects

to_delete-IsPlanned_example :
    All
      (IsPlanned gate_config surroundings clean_jobs)
      (evaluate_resources surroundings (some (new_gate gate_config)) clean_jobs objects).to_delete
to_delete-IsPlanned_example =
    to_delete-IsPlanned gate_config surroundings clean_jobs objects (λ i. omega arith)

evaluate_resources_complete_example :
    Any
      (λ r. r ≡ old_map)
      (evaluate_resources surroundings (some gate) clean_jobs objects).to_delete
unfolding matches_selectors namespace_matches label_selector_matches field_selector_matches
    gate_verdict evaluate_object evaluate_present new_gate is_protected_namespace contains
    excluded_by_label_or_annotation is_exclusion_entry lookup meets should_delete_by_ttl
    calculate_expiration_time_shared convert_to_local_ttl_spec calculate_expiration_time
    fixed_ttl_expiration seconds wrap64 ◌+ℤ◌ ◌*ℤ◌ trim_space is_space
evaluate_resources_complete_example =
    evaluate_resources_complete surroundings (some gate) clean_jobs []
      (system_map ∷ config_map "jobs" "other" ∷ []) old_map refl (λ k. refl) refl refl refl refl

abbrev deleter : BatchDeleter
deleter = delete_batch calm (some gate) careful

delete_resources_in_batches_shared-IsPartition_example :
    IsPartition calm.done deleter 2 objects 0 []
      (delete_resources_in_batches_shared calm.done deleter (pos 2) objects [])
delete_resources_in_batches_shared-IsPartition_example =
    delete_resources_in_batches_shared-IsPartition calm.done deleter 2 objects [] (omega arith)
