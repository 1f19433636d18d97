-- ===== src/Controller/Batches/Partition.antt =====
-- The loop over the batches cuts the deletion list into consecutive batches.
use zen_cleaner.Prelude.{
  ℕ, zero, suc, ◌+◌, ◌-◌, ◌≤◌, ◌<◌, min, ◌≡◌, refl, sym, ap, ◌∙◌, ◌⊎◌, inl, inr, Bool, true, false,
  Option, none, some, List, [], ◌∷◌, ◌++◌, arith, ltb, ltb→lt, if◌then◌else◌, Bool-cases, length,
  take, drop, take-append-drop, length-drop, All,
}
use zen_cleaner.Prelude.Int.{ℤ, pos, negsuc, ◌<ℤ◌}
use zen_cleaner.Unstructured.{Unstructured}
use zen_cleaner.Api.{BehaviorSpec}
use zen_cleaner.Controller.Deletion.{Log}
use zen_cleaner.Controller.Batches.{
  resolve_batch_size, BatchDeleter, Run, finished, slice, batch_end, delete_from, delete_sized,
  delete_resources_in_batches_shared, delete_resources_in_batches,
}

abbrev pub concat : {A : Type 0} → List (List A) → List A
concat [] = []
concat (xs ∷ xss) = xs ++ concat xss

-- The batches, deleted one after the other, with the sum of what they count.
abbrev pub run_batches : BatchDeleter → List (List Unstructured) → ℕ → Log → ℕ × Log
run_batches delete [] deleted log = (deleted, log)
run_batches delete (batch ∷ more) deleted log =
    run_batches delete more (deleted + (delete batch log).0.deleted) (delete batch log).1

-- The batches that a run deletes: none empty, none above the size, in the order of the list; all
-- that is left out is the end of the list, and only after a cancellation.
pub record IsPartition (done : Log → Bool) (delete : BatchDeleter) (size : ℕ)
    (resources : List Unstructured) (deleted : ℕ) (log : Log) (run : Run) : Type 0 where
  pub batches : List (List Unstructured)
  pub rest : List Unstructured
  pub covers : concat batches ++ rest ≡ resources
  pub sized : All (λ b. (0 < length b) × (length b ≤ size)) batches
  pub result :
      run
      ≡ finished
          (run_batches delete batches deleted log).0
          (run_batches delete batches deleted log).1
  pub stopped : (rest ≡ []) ⊎ (done (run_batches delete batches deleted log).1 ≡ true)

module _ {A : Type 0} where
  drop_nil : (n : ℕ) → drop {A = A} n [] ≡ []
  drop_nil zero = refl
  drop_nil (suc n) = refl

  drop-drop : (m n : ℕ) (xs : List A) → drop n (drop m xs) ≡ drop (m + n) xs
  drop-drop zero n xs = ap (λ k. drop k xs) (omega arith)
  drop-drop (suc m) n [] = drop_nil n ∙ sym (drop_nil (suc m + n))
  drop-drop (suc m) n (x ∷ xs) =
      drop-drop m n xs ∙ ap (λ k. drop k (x ∷ xs)) {x = suc (m + n)} {y = suc m + n} (omega arith)

  take_all : (n : ℕ) (xs : List A) → length xs ≤ n → take n xs ≡ xs
  take_all zero [] h = refl
  take_all (suc n) [] h = refl
  take_all zero (x ∷ xs) h = absurd (omega (arith, h))
  take_all (suc n) (x ∷ xs) h = ap (λ ys. x ∷ ys) (take_all n xs (omega arith))

  drop_all : (n : ℕ) (xs : List A) → length xs ≤ n → drop n xs ≡ []
  drop_all zero [] h = refl
  drop_all (suc n) [] h = refl
  drop_all zero (x ∷ xs) h = absurd (omega (arith, h))
  drop_all (suc n) (x ∷ xs) h = drop_all n xs (omega arith)

  length-take : (n : ℕ) (xs : List A) → length (take n xs) ≡ min n (length xs)
  length-take zero xs = omega arith
  length-take (suc n) [] = omega arith
  length-take (suc n) (x ∷ xs) = omega (arith, length-take n xs)

  append_nil : (xs : List A) → xs ++ [] ≡ xs
  append_nil [] = refl
  append_nil (x ∷ xs) = ap (λ ys. x ∷ ys) (append_nil xs)

  slice-drop :
      (size i : ℕ) (xs : List A)
      → slice i (batch_end size i (length xs)) xs ++ drop (i + size) xs ≡ drop i xs
  unfolding slice batch_end
  slice-drop size i xs = elim (Bool-cases (ltb (length xs) (i + size))) [
    | inl h ↦
        let whole = take_all (length xs - i) (drop i xs) (omega (arith, length-drop i xs)) in
        let end = drop_all (i + size) xs (omega (arith, ltb→lt (length xs) (i + size) h)) in
        simp (h, whole, end, append_nil (drop i xs))
    | inr h ↦
        let width : i + size - i ≡ size = omega arith in
        simp (h, width, sym (drop-drop i size xs), take-append-drop size (drop i xs))
  ]

  length-slice :
      (size i : ℕ) (xs : List A)
      → 0 < size
      → i < length xs
      → (0 < length (slice i (batch_end size i (length xs)) xs))
        × (length (slice i (batch_end size i (length xs)) xs) ≤ size)
  unfolding slice batch_end
  length-slice size i xs p h =
      let end = if ltb (length xs) (i + size) then length xs else i + size in
      ground (arith, length-take (end - i) (drop i xs), length-drop i xs)

append_assoc : {A : Type 0} (xs ys zs : List A) → (xs ++ ys) ++ zs ≡ xs ++ (ys ++ zs)
append_assoc [] ys zs = refl
append_assoc (x ∷ xs) ys zs = ap (λ r. x ∷ r) (append_assoc xs ys zs)

module _ (done : Log → Bool) (delete : BatchDeleter) (size : ℕ) where
  stop-IsPartition :
      (left : List Unstructured) (deleted : ℕ) (log : Log)
      → (left ≡ []) ⊎ (done log ≡ true)
      → IsPartition done delete size left deleted log (finished deleted log)
  stop-IsPartition left deleted log stopped = record {
    batches = [];
    rest = left;
    covers = refl;
    sized = tt;
    result = refl;
    stopped = stopped;
  }

  -- One more batch in front.
  batch-IsPartition :
      (batch left whole : List Unstructured) (deleted : ℕ) (log : Log) (run : Run)
      → batch ++ left ≡ whole
      → (0 < length batch) × (length batch ≤ size)
      → IsPartition done delete size left
          (deleted + (delete batch log).0.deleted)
          (delete batch log).1
          run
      → IsPartition done delete size whole deleted log run
  batch-IsPartition batch left whole deleted log run cut fits p = record {
    batches = batch ∷ p.batches;
    rest = p.rest;
    covers = append_assoc batch (concat p.batches) p.rest ∙ (ap (λ r. batch ++ r) p.covers ∙ cut);
    sized = (fits, p.sized);
    result = p.result;
    stopped = p.stopped;
  }

  module _ (resources : List Unstructured) (positive : 0 < size) where
    delete_from-IsPartition :
        (fuel i deleted : ℕ) (log : Log)
        → 0 < fuel
        → length resources < fuel + i
        → IsPartition done delete size
            (drop i resources)
            deleted
            log
            (delete_from done delete size resources fuel i deleted log)
    unfolding delete_from
    delete_from-IsPartition zero i deleted log f h = absurd (omega (arith, f))
    delete_from-IsPartition (suc fuel) i deleted log f h =
        elim (Bool-cases (ltb i (length resources))) [
          | inl b ↦ elim (Bool-cases (done log)) [
            | inl c ↦ simp (b, c) (stop-IsPartition (drop i resources) deleted log (inr c))
            | inr c ↦
                let below = ltb→lt i (length resources) b in
                let batch = slice i (batch_end size i (length resources)) resources in
                let rest =
                  delete_from-IsPartition fuel (i + size) (deleted + (delete batch log).0.deleted)
                    (delete batch log).1 (omega (arith, below)) (omega (arith, below)) in
                simp (b, c)
                  (batch-IsPartition batch (drop (i + size) resources) (drop i resources) deleted
                    log _ (slice-drop size i resources)
                    (length-slice size i resources positive below) rest)
          ]
          | inr b ↦
              let end = drop_all i resources (ground (arith, b)) in
              simp b (stop-IsPartition (drop i resources) deleted log (inl end))
        ]

-- The batch loop of the reconciler, with a positive batch size, ends without a panic, and it deletes
-- consecutive batches of the deletion list: none empty, none longer than the size. The batches cover
-- the whole list unless the context is cancelled at the moment where the loop stops. The number it
-- returns is the sum of the batches' counts.
pub delete_resources_in_batches_shared-IsPartition :
    (done : Log → Bool) (delete : BatchDeleter) (size : ℕ) (resources : List Unstructured)
    (log : Log)
    → 0 < size
    → IsPartition done delete size resources 0 log
        (delete_resources_in_batches_shared done delete (pos size) resources log)
unfolding delete_resources_in_batches_shared delete_sized
delete_resources_in_batches_shared-IsPartition done delete size [] log p =
    stop-IsPartition done delete size [] 0 log (inl refl)
delete_resources_in_batches_shared-IsPartition done delete size (resource ∷ more) log p =
    delete_from-IsPartition done delete size (resource ∷ more) p (suc (suc (length more))) 0 0 log
      (omega arith) (omega arith)

-- The evaluation service's batch loop does the same as the reconciler's for a context that is not
-- cancelled at its start, where there is a rate limiter; otherwise it deletes nothing.
pub delete_resources_in_batches-shared :
    (done : Log → Bool) (has_limiter : Bool) (delete : BatchDeleter) (size : ℤ)
    (resources : List Unstructured) (log : Log)
    → (done log ≡ false
        → has_limiter ≡ true
        → delete_resources_in_batches done has_limiter delete size resources log
          ≡ delete_resources_in_batches_shared done delete size resources log)
      × ((done log ≡ true) ⊎ (has_limiter ≡ false)
          → delete_resources_in_batches done has_limiter delete size resources log ≡ finished 0 log)
unfolding delete_resources_in_batches delete_resources_in_batches_shared delete_sized delete_from
delete_resources_in_batches-shared done has_limiter delete (pos n) [] log = ground arith
delete_resources_in_batches-shared done has_limiter delete (negsuc n) [] log = ground arith
delete_resources_in_batches-shared done has_limiter delete size (resource ∷ more) log = ground arith

-- The batch size is positive where the controller's configuration is missing or has a positive one.
pub resolve_batch_size-positive :
    (behavior : BehaviorSpec) (controller : Option ℤ)
    → ((c : ℤ) → controller ≡ some c → pos 0 <ℤ c)
    → pos 0 <ℤ resolve_batch_size behavior controller
unfolding resolve_batch_size
resolve_batch_size-positive behavior none h = ground arith
resolve_batch_size-positive behavior (some c) h = ground (arith, h c refl)
