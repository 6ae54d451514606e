-- ===== src/Api/Meta.antt =====
-- The parts of `metav1.ObjectMeta` and of Kubernetes' own types that the program reads or writes.
pub mod Maps
use cma_ssh.Prelude.{
  ℕ, zero, suc, String, string_eq, ◌==◌, Bool, true, false, Option, none, some, List, [], ◌∷◌,
  if◌then◌else◌,
}

-- A `*metav1.Time`: `some zero` points to the zero time.
abbrev pub Time : Type 0
Time = ℕ

-- `time.Second`: times are in nanoseconds.
abbrev pub second : ℕ
second = 1000000000

-- `(*metav1.Time).IsZero`
abbrev pub is_zero : Option Time → Bool
is_zero none = true
is_zero (some zero) = true
is_zero (some (suc t)) = false

-- A Go map with string keys. A key may stand more than once: the first entry counts.
abbrev pub StringMap : Type 0 → Type 0
StringMap V = List (String × V)

pub record OwnerReference : Type 0 where
  pub api_version : String
  pub kind : String
  pub name : String
  pub uid : String
  pub controller : Option Bool
  pub block_owner_deletion : Option Bool

-- A nil map of labels or annotations is the empty list.
pub record ObjectMeta : Type 0 where
  pub name : String
  pub generate_name : String
  pub namespace : String
  pub uid : String
  pub labels : StringMap String
  pub annotations : StringMap String
  pub owner_references : List OwnerReference
  pub finalizers : List String
  pub deletion_timestamp : Option Time

pub record TypeMeta : Type 0 where
  pub kind : String
  pub api_version : String

-- `client.ObjectKey` and `types.NamespacedName`
pub record ObjectKey : Type 0 where
  pub namespace : String
  pub name : String

-- `reconcile.Result`; the delay is in milliseconds.
pub record ReconcileResult : Type 0 where
  pub requeue : Bool
  pub requeue_after : ℕ

-- `corev1.Secret`. Byte slices are strings.
pub record Secret : Type 0 where
  pub name : String
  pub namespace : String
  pub type : String
  pub contents : StringMap String

-- `reconcile.Result{}`
abbrev pub finished : ReconcileResult
finished = record { requeue = false; requeue_after = 0 }

abbrev pub empty_meta : ObjectMeta
empty_meta = record {
  name = "";
  generate_name = "";
  namespace = "";
  uid = "";
  labels = [];
  annotations = [];
  owner_references = [];
  finalizers = [];
  deletion_timestamp = none;
}

-- `m[key]`: the zero value, "", for a missing key.
unfoldable pub get_string : StringMap String → String → String
get_string [] key = ""
get_string ((k, v) ∷ m) key = if k == key then v else get_string m key

-- `v, ok := m[key]`
unfoldable pub find_string : StringMap String → String → Option String
find_string [] key = none
find_string ((k, v) ∷ m) key = if k == key then some v else find_string m key

-- `m[key] = value`
unfoldable pub set_string : StringMap String → String → String → StringMap String
set_string [] key value = (key, value) ∷ []
set_string ((k, v) ∷ m) key value =
    if k == key then (k, value) ∷ m else (k, v) ∷ set_string m key value
