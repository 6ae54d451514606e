-- ===== src/World/Remote.antt =====
-- A managed cluster, as client-go and kubectl's drain package show it.
use cma_ssh.Prelude.{String, Bool, Option, List}
use cma_ssh.Prelude.Go.{Call, Result, Err}
use cma_ssh.Api.Meta.{Secret, ObjectMeta, ObjectKey}

pub record NodeCondition : Type 0 where
  pub reason : String
  pub status : String

pub record Node : Type 0 where
  pub name : String
  pub conditions : List NodeCondition

pub record Pod : Type 0 where
  pub name : String
  pub namespace : String
  pub uid : String

-- `rbac.ClusterRoleBinding`: its subjects (kind, name, namespace) and its role (kind, name, group)
pub record ClusterRoleBinding : Type 0 where
  pub metadata : ObjectMeta
  pub subjects : List (String × String × String)
  pub role_ref : String × String × String

pub record Container : Type 0 where
  pub name : String
  pub image : String
  pub image_pull_policy : String
  pub command : List String

-- `batchv1.Job`: what its template of a pod says
pub record Job : Type 0 where
  pub metadata : ObjectMeta
  pub service_account_name : String
  pub containers : List Container
  pub restart_policy : String

-- `Get` and `Create` for one kind of object; the key's namespace is "" where the kind has none.
pub record Objects (S C T : Type 0) : Type 0 where
  pub get : C → ObjectKey → Call S T
  pub create : C → String → T → Call S T

pub record Remote (S : Type 0) : Type 1 where
  pub ClientConfig : Type 0
  pub RestConfig : Type 0
  pub Clientset : Type 0
  -- `clientcmd.NewClientConfigFromBytes`, `ClientConfig`, `kubernetes.NewForConfig`
  pub new_client_config_from_bytes : String → Result ClientConfig
  pub client_config : ClientConfig → Result RestConfig
  pub new_for_config : RestConfig → Result Clientset
  pub get_node : Clientset → String → Call S Node
  pub delete_node : Clientset → String → Call S (Unit {0})
  -- The secrets of kube-system: those of a type, and a new one.
  pub list_secrets : Clientset → String → Call S (List Secret)
  -- The names of the services of kube-system that are marked as cluster services
  pub list_services : Clientset → Call S (List String)
  pub create_secret : Clientset → Secret → Call S (Unit {0})
  -- `CordonHelper.UpdateIfRequired(true)` and `PatchOrReplace`, whose two results are errors
  pub update_if_required : Node → Bool
  pub patch_or_replace : Clientset → Node → S → (Option Err × Option Err) × S
  -- `drain.Helper`: `GetPodsForDeletion`, `DeletePod`, `EvictPod`; `drain.CheckEvictionSupport`
  pub get_pods_for_deletion : Clientset → String → Call S (List Pod)
  pub check_eviction_support : Clientset → Call S String
  pub delete_pod : Clientset → Pod → Call S (Unit {0})
  pub evict_pod : Clientset → String → Pod → Call S (Unit {0})
  -- The pointer to the pod and the error
  pub get_pod : Clientset → String → String → S → (Option Pod × Option Err) × S
  pub namespaces : Objects S Clientset ObjectMeta
  pub service_accounts : Objects S Clientset ObjectMeta
  pub cluster_role_bindings : Objects S Clientset ClusterRoleBinding
  pub jobs : Objects S Clientset Job
