-- ===== src/Examples/Rules.antt =====
-- The rules of the time to live, the backoff, the gate, the selectors and the conditions on examples.
use zen_cleaner.Prelude.{◌≡◌, refl, ◌↔◌, true, some, [], ◌∷◌, arith}
use zen_cleaner.Prelude.Int.{pos, ◌+ℤ◌, ◌*ℤ◌, wrap64}
use zen_cleaner.Prelude.Text.{codes}
use zen_cleaner.Ttl.{seconds, calculate_expiration_time}
use zen_cleaner.Ttl.Path.{parse_field_path}
use zen_cleaner.Ttl.Path.RoundTrip.{join, parse_field_path-join}
use zen_cleaner.Ttl.Deadline.{fixed, Decides, calculate-of-Deadline, Explains, calculate-Explains}
use zen_cleaner.Safety.{allow, new_gate, evaluate_object}
use zen_cleaner.Safety.Laws.{IsDeletable, evaluate_object-allow_iff}
use zen_cleaner.Controller.Selectors.{matches_selectors}
use zen_cleaner.Controller.Selectors.Laws.{Selects, matches_selectors_iff}
use zen_cleaner.Examples.{old_map, one_minute, in_jobs, careful, gate_config, clock, no_selector}

-- "a.b" as one segment, then "c".
parse_field_path-join_example :
    parse_field_path (join (codes "a.b" ∷ codes "c" ∷ [])) ≡ codes "a.b" ∷ codes "c" ∷ []
parse_field_path-join_example =
    parse_field_path-join (codes "a.b") (codes "c" ∷ []) (ground arith) (refl, tt)

calculate-of-Deadline_example :
    Decides clock old_map one_minute
      (calculate_expiration_time clock old_map one_minute)
      (pos 61000000000)
unfolding ◌+ℤ◌ seconds wrap64 ◌*ℤ◌
calculate-of-Deadline_example =
    calculate-of-Deadline clock old_map one_minute (pos 61000000000) (fixed (pos 60) refl refl)

calculate-Explains_example :
    Explains clock old_map one_minute (calculate_expiration_time clock old_map one_minute)
calculate-Explains_example = calculate-Explains clock old_map one_minute

evaluate_object-allow_iff_example :
    (evaluate_object (new_gate gate_config) (some old_map) careful ≡ allow)
    ↔ IsDeletable gate_config old_map careful
evaluate_object-allow_iff_example = evaluate_object-allow_iff gate_config old_map careful

matches_selectors_iff_example :
    (matches_selectors no_selector old_map in_jobs ≡ true) ↔ Selects no_selector old_map in_jobs
matches_selectors_iff_example = matches_selectors_iff no_selector old_map in_jobs
