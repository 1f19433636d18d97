-- ===== src/Controller/Expiry/Laws.antt =====
-- A resource is due exactly when its deadline has passed.
use zen_cleaner.Prelude.{◌≡◌, refl, ◌≢◌, ◌↔◌, true, arith}
use zen_cleaner.Prelude.Int.{pos, ◌<ℤ◌, ◌≤ℤ◌}
use zen_cleaner.Unstructured.{Unstructured, Time}
use zen_cleaner.Api.{TtlSpec}
use zen_cleaner.Ttl.{TtlResult, ok, err, relative_ttl_expired}
use zen_cleaner.Ttl.Deadline.{
  Deadline, Decides, Explains, calculate-of-Deadline, calculate-Explains,
}
use zen_cleaner.Controller.Expiry.{
  Reading, decide, convert_to_local_ttl_spec, calculate_expiration_time_shared,
  should_delete_by_ttl,
}

-- The deadline that the TTL of a policy gives a resource, if it gives one, has passed at a time.
abbrev pub IsDue : Reading → Unstructured → TtlSpec → Type 0
IsDue reading resource spec =
    (e : Time) × Deadline reading.clock.parse_rfc3339 resource spec e × (e <ℤ reading.later)

convert_lem : (s : TtlSpec) → convert_to_local_ttl_spec s ≡ s
unfolding convert_to_local_ttl_spec
convert_lem s = refl

decide_sound :
    (reading : Reading) (resource : Unstructured) (spec : TtlSpec) (r : TtlResult Time)
    → reading.clock.now ≤ℤ reading.later
    → Explains reading.clock resource spec r
    → (decide reading.later r).0 ≡ true
    → IsDue reading resource spec
unfolding decide
decide_sound reading resource spec (ok e) m x h = (e, x, ground arith)
decide_sound reading resource spec (err relative_ttl_expired) m (e, d, l) h = (e, d, omega arith)
decide_sound reading resource spec (err _) m x h = cc

decide_complete :
    (reading : Reading) (resource : Unstructured) (spec : TtlSpec) (r : TtlResult Time) (e : Time)
    → e ≢ pos 0
    → Decides reading.clock resource spec r e
    → e <ℤ reading.later
    → (decide reading.later r).0 ≡ true
unfolding decide
decide_complete reading resource spec r e n d l = ground arith

pub should_delete_by_ttl-IsDue :
    (reading : Reading) (resource : Unstructured) (spec : TtlSpec)
    → reading.clock.now ≤ℤ reading.later
    → (should_delete_by_ttl reading resource spec).0 ≡ true
    → IsDue reading resource spec
unfolding should_delete_by_ttl calculate_expiration_time_shared
should_delete_by_ttl-IsDue reading resource spec m h =
    decide_sound reading resource spec _ m (calculate-Explains reading.clock resource spec) h

-- The evaluation service finds a resource due exactly when the deadline that its TTL gives it lies
-- before the reading of the clock, provided that the clock does not run backwards between its two
-- readings and that no deadline is the zero time.
pub should_delete_by_ttl_iff :
    (reading : Reading) (resource : Unstructured) (spec : TtlSpec)
    → reading.clock.now ≤ℤ reading.later
    → ((e : Time) → Deadline reading.clock.parse_rfc3339 resource spec e → e ≢ pos 0)
    → ((should_delete_by_ttl reading resource spec).0 ≡ true) ↔ IsDue reading resource spec
unfolding should_delete_by_ttl calculate_expiration_time_shared
should_delete_by_ttl_iff reading resource spec m z = (
  should_delete_by_ttl-IsDue reading resource spec m,
  λ h.
      decide_complete reading resource spec _ h.0 (z h.0 h.1)
        (calculate-of-Deadline reading.clock resource spec h.0 h.1) h.2,
)
