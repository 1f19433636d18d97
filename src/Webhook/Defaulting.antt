-- ===== src/Webhook/Defaulting.antt =====
-- What the defaults of a created policy are, once its patches are applied.
use zen_cleaner.Prelude.{
  String, ◌≡◌, refl, ◌∙◌, ◌↔◌, inl, inr, Bool, true, false, ◌&&◌, Option, none, some, List, [], ◌∷◌,
  arith, ◌==◌, eq_iff, if◌then◌else◌, Bool-cases,
}
use zen_cleaner.Prelude.Int.{ℤ, pos, eqb_ℤ, ◌<ℤ◌}
use zen_cleaner.Prelude.Text.{ne_of_eq}
use zen_cleaner.Api.{BehaviorSpec}
use zen_cleaner.Validation.Defs.{IsBehavior}
use zen_cleaner.Controller.Batches.{resolve_batch_size}
use zen_cleaner.Webhook.{number, text, defaults, Patch, has_behavior, patch_if, default_patches}

-- The documented behaviour of a JSON patch's "add" (RFC 6902) on the members of an object: it replaces
-- the whole of a member that is there.
pub record AppliesPatches (apply : List Patch → BehaviorSpec → BehaviorSpec) : Type 0 where
  pub none_left : (b : BehaviorSpec) → apply [] b ≡ b
  pub whole :
      (rate size : ℤ) (p : String) (more : List Patch) (b : BehaviorSpec)
      → apply (record { path = "/spec/behavior"; value = defaults rate size p } ∷ more) b
        ≡ apply more record {
          max_deletions_per_second = rate;
          batch_size = size;
          dry_run = false;
          finalizer = "";
          propagation_policy = p;
          grace_period_seconds = none;
          allow_workload_deletion = false;
        }
  pub rate :
      (n : ℤ) (more : List Patch) (b : BehaviorSpec)
      → apply (record { path = "/spec/behavior/maxDeletionsPerSecond"; value = number n } ∷ more) b
        ≡ apply more record b { max_deletions_per_second = n }
  pub size :
      (n : ℤ) (more : List Patch) (b : BehaviorSpec)
      → apply (record { path = "/spec/behavior/batchSize"; value = number n } ∷ more) b
        ≡ apply more record b { batch_size = n }
  pub propagation :
      (p : String) (more : List Patch) (b : BehaviorSpec)
      → apply (record { path = "/spec/behavior/propagationPolicy"; value = text p } ∷ more) b
        ≡ apply more record b { propagation_policy = p }

-- The defaults, field by field. The opt-in for workloads is kept only where another field is set.
unfoldable pub with_defaults : BehaviorSpec → BehaviorSpec
with_defaults b = record {
  max_deletions_per_second =
      if eqb_ℤ b.max_deletions_per_second (pos 0) then pos 10 else b.max_deletions_per_second;
  batch_size = if eqb_ℤ b.batch_size (pos 0) then pos 50 else b.batch_size;
  dry_run = b.dry_run;
  finalizer = b.finalizer;
  propagation_policy = if b.propagation_policy == "" then "Background" else b.propagation_policy;
  grace_period_seconds = b.grace_period_seconds;
  allow_workload_deletion = b.allow_workload_deletion && has_behavior b;
}

and_true : (a : Bool) → (a && true) ≡ a
and_true true = refl
and_true false = refl

and_false : (a : Bool) → (a && false) ≡ false
and_false true = refl
and_false false = refl

-- Without a behavior, all fields but the opt-in for workloads have their zero value.
no_behavior :
    (b : BehaviorSpec)
    → has_behavior b ≡ false
    → (eqb_ℤ b.max_deletions_per_second (pos 0) ≡ true)
      × (eqb_ℤ b.batch_size (pos 0) ≡ true)
      × (b.dry_run ≡ false)
      × (b.finalizer ≡ "")
      × (b.propagation_policy ≡ "")
      × (b.grace_period_seconds ≡ none)
unfolding has_behavior
no_behavior b h = ground (arith, eq_iff b.finalizer "", eq_iff b.propagation_policy "")

module _ (apply : List Patch → BehaviorSpec → BehaviorSpec)
    (documented : AppliesPatches apply) where
  apply-patch_if_rate :
      (t : Bool) (more : List Patch) (b : BehaviorSpec)
      → apply
          (patch_if t
            (record { path = "/spec/behavior/maxDeletionsPerSecond"; value = number (pos 10) })
            more)
          b
        ≡ apply more (record b {
          max_deletions_per_second = if t then pos 10 else b.max_deletions_per_second;
        })
  apply-patch_if_rate true more b = documented.rate (pos 10) more b
  apply-patch_if_rate false more b = refl

  apply-patch_if_size :
      (t : Bool) (more : List Patch) (b : BehaviorSpec)
      → apply
          (patch_if t (record { path = "/spec/behavior/batchSize"; value = number (pos 50) }) more)
          b
        ≡ apply more (record b { batch_size = if t then pos 50 else b.batch_size })
  apply-patch_if_size true more b = documented.size (pos 50) more b
  apply-patch_if_size false more b = refl

  apply-patch_if_propagation :
      (t : Bool) (b : BehaviorSpec)
      → apply
          (patch_if t
            (record { path = "/spec/behavior/propagationPolicy"; value = text "Background" })
            [])
          b
        ≡ record b { propagation_policy = if t then "Background" else b.propagation_policy }
  apply-patch_if_propagation true b =
      documented.propagation "Background" [] b ∙ documented.none_left _
  apply-patch_if_propagation false b = documented.none_left b

  pub apply-default_patches : (b : BehaviorSpec) → apply (default_patches b) b ≡ with_defaults b
  unfolding default_patches with_defaults
  apply-default_patches b = elim (Bool-cases (has_behavior b)) [
    | inl h ↦
        simp (h, and_true b.allow_workload_deletion)
          (apply-patch_if_rate (eqb_ℤ b.max_deletions_per_second (pos 0)) _ b
            ∙ apply-patch_if_size (eqb_ℤ b.batch_size (pos 0)) _ _
            ∙ apply-patch_if_propagation (b.propagation_policy == "") _)
    | inr h ↦
        let (rate, size, dry, final, prop, grace) = no_behavior b h in
        simp (and_false b.allow_workload_deletion, rate, size, dry, final, prop, grace)
          (documented.whole (pos 10) (pos 50) "Background" [] b ∙ documented.none_left _)
  ]

  with_defaults-default_patches : (b : BehaviorSpec) → default_patches (with_defaults b) ≡ []
  unfolding default_patches with_defaults has_behavior
  with_defaults-default_patches b = ground (
    arith,
    ne_of_eq "Background" "" refl,
    eq_iff b.propagation_policy "",
    eq_iff (if b.propagation_policy == "" then "Background" else b.propagation_policy) "",
  )

  with_defaults_iff : (b : BehaviorSpec) → IsBehavior (with_defaults b) ↔ IsBehavior b
  unfolding with_defaults
  with_defaults_iff b =
      ground (arith, eq_iff b.propagation_policy "", ne_of_eq "Background" "" refl)

  with_defaults-positive :
      (b : BehaviorSpec) (controller : Option ℤ)
      → IsBehavior b
      → pos 0 <ℤ resolve_batch_size (with_defaults b) controller
  unfolding with_defaults resolve_batch_size
  with_defaults-positive b none h = ground arith
  with_defaults-positive b (some c) h = ground arith

  -- Where the patches are applied as documented: a created policy's behavior gets 10 deletions per
  -- second, a batch size of 50 and the propagation "Background", each where its field has the zero
  -- value, and keeps its other fields, but that the opt-in for workloads is lost where no other field
  -- is set. The patched behavior needs no patch again, it is valid exactly when the behavior was, and
  -- then its batches are not empty, whatever batch size the controller has.
  pub apply-default_patches_lem :
      (b : BehaviorSpec)
      → (apply (default_patches b) b ≡ with_defaults b)
        × (default_patches (apply (default_patches b) b) ≡ [])
        × (IsBehavior (apply (default_patches b) b) ↔ IsBehavior b)
        × (IsBehavior b
            → (controller : Option ℤ)
            → pos 0 <ℤ resolve_batch_size (apply (default_patches b) b) controller)
  apply-default_patches_lem b = rw (apply-default_patches b) (
    refl,
    with_defaults-default_patches b,
    with_defaults_iff b,
    λ h controller. with_defaults-positive b controller h,
  )
