-- ===== src/Syncer/Labels.antt =====
-- pkg/syncer/syncer.go: the configuration, and the labels of the storage classes.
pub mod Laws
use Prim.Native.Char.{code}
use cloudstack_csi_driver.Prelude.{
  ℕ, String, Bool, Option, none, some, List, [], ◌∷◌, ◌=?◌, ◌==◌, if◌then◌else◌,
}
use cloudstack_csi_driver.Prelude.Maps.{Map, insert}
use cloudstack_csi_driver.Prelude.Strings.{push}
use cloudstack_csi_driver.Cloud.Config.{CsConfig, read_config, Config}
use cloudstack_csi_driver.Syncer.Run.{Syncer}

pub record SyncerConfig : Type 0 where
  pub agent : String
  pub cloud_stack_config : String
  pub kube_config : String
  pub label : String
  pub name_prefix : String
  pub delete : Bool
  pub volume_expansion : Bool

-- `strings.SplitN(s, sep, 2)`
unfoldable pub cut : ℕ → String → List String
cut sep String.[] = String.[] ∷ []
cut sep (String.◌∷◌ c s) =
    let rest = cut sep s in if code c == sep then String.[] ∷ s ∷ [] else push c rest

abbrev pub label_of : List String → Map String
label_of [] = []
label_of (key ∷ []) = insert key "" []
label_of (key ∷ value ∷ parts) = insert key value []

unfoldable pub create_labels_set : String → Map String
unfolding cut insert
create_labels_set label = if label =? "" then [] else label_of (cut b'=' label)

-- k8s.io/client-go: `none` is an error.
pub record Kube : Type 1 where
  pub RestConfig : Type 0
  pub Client : Type 0
  pub in_cluster_config : Option RestConfig
  pub build_config_from_flags : String → String → Option RestConfig
  pub with_user_agent : RestConfig → String → RestConfig
  pub new_for_config : RestConfig → Option Client

module _ (Q : Kube) where
  abbrev pub configured : String → Option Q.RestConfig → Option Q.Client
  configured agent none = none
  configured agent (some config) = Q.new_for_config (Q.with_user_agent config agent)

  unfoldable pub create_k8s_client : String → String → Option Q.Client
  create_k8s_client kubeconfig agent =
      configured agent
        (if kubeconfig =? "-" then Q.in_cluster_config else Q.build_config_from_flags "" kubeconfig)

-- The client of CloudStack is made of the configuration alone, so that this stands for it.
unfoldable pub create_cloud_stack_client : (String → Option CsConfig) → String → Option Config
create_cloud_stack_client read_file_into path = read_config read_file_into path

abbrev pub with_client : SyncerConfig → Option Config → Option Syncer
with_client config none = none
with_client config (some client) = some (record {
  labels_set = create_labels_set config.label;
  name_prefix = config.name_prefix;
  delete = config.delete;
  volume_expansion = config.volume_expansion;
})

module _ (Q : Kube) where
  abbrev pub with_clients :
      (String → Option CsConfig) → SyncerConfig → Option Q.Client → Option Syncer
  with_clients read_file_into config none = none
  with_clients read_file_into config (some client) =
      with_client config (create_cloud_stack_client read_file_into config.cloud_stack_config)

  -- `New`; `none` is an error.
  unfoldable pub new : (String → Option CsConfig) → SyncerConfig → Option Syncer
  unfolding create_labels_set create_k8s_client create_cloud_stack_client
  new read_file_into config =
      with_clients read_file_into config (create_k8s_client Q config.kube_config config.agent)
