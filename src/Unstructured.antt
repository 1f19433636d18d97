-- ===== src/Unstructured.antt =====
-- What the controller reads of a Kubernetes object: the accessors of k8s.io/apimachinery's
-- `unstructured.Unstructured`, which is not code of this repository. An object is the record of
-- their answers; `nested_string` and `nested_int64` are arguments of the model.
use zen_cleaner.Prelude.{String, List, Bool, true, false, ◌≡◌, refl, ◌⊎◌, inl, inr}
use zen_cleaner.Prelude.Text.{Bytes}
use zen_cleaner.Prelude.Int.{ℤ}

-- `(value, true, nil)`, `(_, false, nil)` and `(_, false, err)`: the three answers of a nested read.
pub data Nested (A : Type 0) : Type 0 where
  found : A → Nested A
  missing : Nested A
  mistyped : Nested A

abbrev pub is_found : {A : Type 0} → Nested A → Bool
is_found (found a) = true
is_found missing = false
is_found mistyped = false

pub Nested-cases : {A : Type 0} (n : Nested A) → ((a : A) × (n ≡ found a)) ⊎ (is_found n ≡ false)
Nested-cases (found a) = inl (a, refl)
Nested-cases missing = inr refl
Nested-cases mistyped = inr refl

-- A `time.Time`, in nanoseconds after the zero time.
abbrev pub Time : Type 0
Time = ℤ

pub record Unstructured : Type 0 where
  pub kind : String
  pub namespace : String
  pub name : String
  pub uid : String
  pub labels : List (String × String)
  pub annotations : List (String × String)
  pub creation : Time
  pub nested_string : List Bytes → Nested String
  pub nested_int64 : List Bytes → Nested ℤ
