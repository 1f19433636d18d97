-- ===== src/Examples/Deletions.antt =====
-- Batches of deletions on examples.
use zen_cleaner.Prelude.{◌*◌, ◌≤◌, ◌≡◌, refl, ◌≢◌, true, Option, none, some, List, [], ◌∷◌, arith}
use zen_cleaner.Safety.{
  Gate, new_gate, evaluate_object, is_protected_namespace, contains, protected_namespace,
}
use zen_cleaner.Unstructured.{Unstructured}
use zen_cleaner.Controller.Deletion.{
  verdict, delete_batch, delete_resource, delete_resource_with_backoff,
}
use zen_cleaner.Controller.Deletion.Safe.{IsSafe, delete_batch-IsSafe}
use zen_cleaner.Controller.Deletion.Attempts.{
  sent, delete_batch-sent, delete_resource_with_backoff_ends,
}
use zen_cleaner.Controller.Deletion.Retries.{attempts, ended, delete_resource_with_backoff-attempts}
use zen_cleaner.Controller.Deletion.Refusals.{delete_batch-refused}
use zen_cleaner.Examples.{old_map, system_map, careful, gate_config, calm}

abbrev gate : Option Gate
gate = some (new_gate gate_config)

abbrev batch : List Unstructured
batch = old_map ∷ system_map ∷ []

delete_batch-IsSafe_example :
    IsSafe gate (λ b. b ≡ careful) (delete_batch calm gate careful batch []).1
delete_batch-IsSafe_example =
    delete_batch-IsSafe calm gate (λ b. b ≡ careful) careful refl batch [] tt

delete_resource_with_backoff_ends_example :
    (delete_resource_with_backoff calm gate careful old_map []).0 ≢ none
delete_resource_with_backoff_ends_example =
    delete_resource_with_backoff_ends calm gate careful old_map []

delete_batch-sent_example :
    (sent (delete_batch calm gate careful batch []).1 ≤ 5 * 2)
    × (careful.dry_run ≡ true → sent (delete_batch calm gate careful batch []).1 ≡ 0)
delete_batch-sent_example = delete_batch-sent calm gate careful batch

-- Two ConfigMaps of a protected namespace are counted as deleted.
delete_batch-refused_example :
    let u = delete_batch calm gate careful (system_map ∷ system_map ∷ []) [] in
    (u.0.deleted ≡ 2) × (u.0.errors ≡ 0) × (sent u.1 ≡ 0)
unfolding verdict evaluate_object new_gate is_protected_namespace contains
delete_batch-refused_example =
    delete_batch-refused calm gate careful (system_map ∷ system_map ∷ []) []
      (record { waits = λ l. refl; goes_on = λ l. refl }) refl
      ((protected_namespace, refl), ((protected_namespace, refl), tt))

delete_resource_with_backoff-attempts_example :
    delete_resource_with_backoff calm gate careful old_map []
    ≡ ended (attempts (delete_resource calm gate careful old_map) 5 none [])
delete_resource_with_backoff-attempts_example =
    delete_resource_with_backoff-attempts calm gate careful old_map [] (λ l. refl)
      (λ d. omega arith)
