-- ===== src/Types/Meta.antt =====
-- Object metadata and status conditions, as far as the program reads or writes them, and the
-- constants of internal/controller/shared/shared.go.
use pangolin_operator.Base.{ℕ, List, Option, Bool}
use pangolin_operator.Base.Int.{ℤ}
use pangolin_operator.Base.Text.{Text, txt}

pub record OwnerReference : Type 0 where
  pub api_version : Text
  pub kind : Text
  pub name : Text
  pub uid : Text
  pub controller : Option Bool
  pub block_owner_deletion : Option Bool

pub record ObjectMeta : Type 0 where
  pub name : Text
  pub namespace : Text
  pub uid : Text
  pub generation : ℤ
  pub deletion_timestamp : Option Text
  pub finalizers : List Text
  pub labels : Option (List (Text × Text))
  pub annotations : List (Text × Text)
  pub owner_references : List OwnerReference

pub data ConditionStatus : Type 0 where
  condition_true condition_false : ConditionStatus

pub record Condition : Type 0 where
  pub condition_type : Text
  pub status : ConditionStatus
  pub observed_generation : ℤ
  pub reason : Text
  pub message : Text

-- The phases of all three kinds, which have the same values; `unset` is the empty one.
pub data Phase : Type 0 where
  unset pending creating ready deleting error : Phase

-- Intervals, in seconds.
abbrev pub resync_interval : ℕ
resync_interval = 600

abbrev pub requeue_dependency_wait : ℕ
requeue_dependency_wait = 10

abbrev pub requeue_permanent_error : ℕ
requeue_permanent_error = 300

abbrev pub condition_ready : Text
condition_ready = txt "Ready"

abbrev pub reason_reconciled : Text
reason_reconciled = txt "Reconciled"

abbrev pub reason_pending : Text
reason_pending = txt "Pending"

abbrev pub reason_error : Text
reason_error = txt "Error"

abbrev pub reason_permanent_error : Text
reason_permanent_error = txt "PermanentError"

abbrev pub label_owner_kind : Text
label_owner_kind = txt "pangolin.home-operations.com/owner-kind"

abbrev pub label_owner_name : Text
label_owner_name = txt "pangolin.home-operations.com/owner-name"

abbrev pub label_site : Text
label_site = txt "pangolin.home-operations.com/site"

abbrev pub label_managed_by : Text
label_managed_by = txt "app.kubernetes.io/managed-by"

abbrev pub site_type_local : Text
site_type_local = txt "local"

abbrev pub site_type_newt : Text
site_type_newt = txt "newt"

-- SetCondition; `set_status` is apimeta.SetStatusCondition.
abbrev pub set_condition :
    (List Condition → Condition → List Condition)
    → List Condition
    → ConditionStatus
    → Text
    → Text
    → ℤ
    → List Condition
set_condition set_status conditions status reason message generation =
    set_status conditions (record {
      condition_type = condition_ready;
      status = status;
      observed_generation = generation;
      reason = reason;
      message = message;
    })

-- The functions of the Kubernetes libraries that the reconcilers apply to an object in memory:
-- apimeta.SetStatusCondition, and controllerutil's ContainsFinalizer, AddFinalizer and
-- RemoveFinalizer on the object's finalizers.
pub record KubeLib : Type 0 where
  pub set_status_condition : List Condition → Condition → List Condition
  pub contains_finalizer : List Text → Text → Bool
  pub add_finalizer : List Text → Text → List Text
  pub remove_finalizer : List Text → Text → List Text
