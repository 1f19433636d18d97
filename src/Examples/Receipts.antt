-- ===== src/Examples/Receipts.antt =====
-- Receipts and the integrity check on examples.
use zen_cleaner.Prelude.{
  ℕ, zero, suc, String, ◌≡◌, ◌≢◌, ◌↔◌, ◌⊎◌, true, false, Option, none, some, List, [], ◌∷◌, ◌==◌,
  All,
}
use zen_cleaner.Prelude.Text.{Bytes}
use zen_cleaner.Unstructured.{Unstructured}
use zen_cleaner.Api.{ZenCleanerPolicy}
use zen_cleaner.Safety.{Gate, new_gate}
use zen_cleaner.Controller.Deletion.{delete_batch}
use zen_cleaner.Controller.Receipt.{
  succeeded, failure, ObjectResult, Digest, ExecutionReceipt, plan_digest, nothing_before,
  observe_before, execute_with_receipt,
}
use zen_cleaner.Controller.Receipt.Honest.{objects, GoneAfter, execute_with_receipt-honest}
use zen_cleaner.Controller.Integrity.{
  Crypto, check_integrity, annotation, ann_declared_digest, ann_policy_signature,
}
use zen_cleaner.Controller.Integrity.Laws.{IsSigned, check_integrity-anchored_iff}
use zen_cleaner.Examples.{
  config_map, old_map, system_map, clean_jobs, careful, gate_config, empty_server,
}

abbrev results : List ObjectResult
results =
    record { object = old_map; class = succeeded }
    ∷ record { object = system_map; class = failure }
    ∷ []

abbrev digest : Digest
digest [] = ""
digest (s ∷ more) = s

abbrev gate : Option Gate
gate = some (new_gate gate_config)

abbrev batch : List Unstructured
batch = old_map ∷ config_map "jobs" "other" ∷ []

execute_with_receipt-honest_example :
    (careful.dry_run ≡ true
      → (execute_with_receipt empty_server digest gate careful batch []).1 ≡ none)
    × (careful.dry_run ≡ false
        → (receipt : ExecutionReceipt) × ((execute_with_receipt empty_server digest gate careful
              batch []).1
            ≡ some receipt)
          × (objects receipt.results ≡ batch)
          × (receipt.plan_digest ≡ plan_digest digest batch)
          × (receipt.overall_status ≡ "SUCCEEDED"
              → All
                  (GoneAfter empty_server
                    (delete_batch empty_server gate careful batch
                      (observe_before empty_server batch nothing_before []).1).1)
                  batch))
execute_with_receipt-honest_example =
    execute_with_receipt-honest empty_server digest gate careful batch []

-- Signatures are 64 bytes here, and verify over the digest "d".
abbrev zeros : ℕ → Bytes
zeros zero = []
zeros (suc n) = 0 ∷ zeros n

abbrev crypto : Crypto
crypto = record {
  spec_digest = λ spec. some "d";
  decode_base64 = λ text. some (zeros 64);
  ed25519_verify = λ key message sig. message == "d";
}

abbrev policy : ZenCleanerPolicy
policy = record {
  namespace = "jobs";
  name = "clean";
  uid = "p1";
  annotations = (ann_declared_digest, "d") ∷ (ann_policy_signature, "sig") ∷ [];
  spec = clean_jobs;
  phase = "";
}

check_integrity-anchored_iff_example :
    let v = check_integrity crypto (some []) policy in
    let declared = annotation ann_declared_digest policy.annotations in
    let text = annotation ann_policy_signature policy.annotations in
    (crypto.spec_digest policy.spec ≡ none → v.refuses ≡ true)
    × ((digest : String)
        → crypto.spec_digest policy.spec ≡ some digest
        → (v.refuses ≡ false) ↔ (
            (text ≢ "")
            × IsSigned crypto [] declared text
            × ((declared ≡ "") ⊎ (declared ≡ digest))))
check_integrity-anchored_iff_example = check_integrity-anchored_iff crypto [] policy
