-- ===== src/Controller/Batches/Keeps.antt =====
-- What each batch keeps of the log, the loop over the batches keeps.
use zen_cleaner.Prelude.{
  ℕ, zero, suc, ◌+◌, Bool, true, false, List, [], ◌∷◌, ltb, if◌then◌else◌, length,
}
use zen_cleaner.Prelude.Int.{ℤ, pos, negsuc}
use zen_cleaner.Unstructured.{Unstructured}
use zen_cleaner.Controller.Deletion.{Log}
use zen_cleaner.Controller.Batches.{
  BatchDeleter, slice, batch_end, delete_from, delete_sized, delete_resources_in_batches,
  delete_resources_in_batches_shared,
}
use zen_cleaner.Controller.Reconcile.Evaluation.{log_of}

-- What both branches have, the test has.
pub if-keeps :
    {A : Type 0} (Q : A → Type 0) (b : Bool) {x y : A} → Q x → Q y → Q (if b then x else y)
if-keeps Q true x y = x
if-keeps Q false x y = y

module _ (P : Log → Type 0) where
  module _ (done : Log → Bool) (delete : BatchDeleter)
      (keeps : (batch : List Unstructured) (log : Log) → P log → P (delete batch log).1) where
    delete_from-keeps :
        (size : ℕ) (resources : List Unstructured) (fuel i deleted : ℕ) (log before : Log)
        → P log
        → P before
        → P (log_of (delete_from done delete size resources fuel i deleted log) before)
    unfolding delete_from
    delete_from-keeps size resources zero i deleted log before h b = b
    delete_from-keeps size resources (suc fuel) i deleted log before h b =
        let batch = slice i (batch_end size i (length resources)) resources in
        let rest =
          delete_from-keeps size resources fuel (i + size) (deleted + (delete batch log).0.deleted)
            (delete batch log).1 before (keeps batch log h) b in
        if-keeps (λ run. P (log_of run before)) (ltb i (length resources))
          (if-keeps (λ run. P (log_of run before)) (done log) h rest) h

    delete_sized-keeps :
        (size : ℤ) (resources : List Unstructured) (log : Log)
        → P log
        → P (log_of (delete_sized done delete size resources log) log)
    unfolding delete_sized
    delete_sized-keeps (pos size) resources log h =
        delete_from-keeps size resources (suc (length resources)) 0 0 log log h h
    delete_sized-keeps (negsuc n) [] log h = h
    delete_sized-keeps (negsuc n) (resource ∷ more) log h =
        if-keeps (λ run. P (log_of run log)) (done log) h h

    pub delete_resources_in_batches-keeps :
        (has_limiter : Bool) (size : ℤ) (resources : List Unstructured) (log : Log)
        → P log
        → P (log_of (delete_resources_in_batches done has_limiter delete size resources log) log)
    unfolding delete_resources_in_batches
    delete_resources_in_batches-keeps has_limiter size resources log h =
        if-keeps (λ run. P (log_of run log)) (done log) h
          (if-keeps (λ run. P (log_of run log)) has_limiter
            (delete_sized-keeps size resources log h) h)

    pub delete_resources_in_batches_shared-keeps :
        (size : ℤ) (resources : List Unstructured) (log : Log)
        → P log
        → P (log_of (delete_resources_in_batches_shared done delete size resources log) log)
    unfolding delete_resources_in_batches_shared
    delete_resources_in_batches_shared-keeps size [] log h = h
    delete_resources_in_batches_shared-keeps size (resource ∷ more) log h =
        delete_sized-keeps size (resource ∷ more) log h
