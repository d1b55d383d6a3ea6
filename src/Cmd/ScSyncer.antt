-- ===== src/Cmd/ScSyncer.antt =====
-- cmd/cloudstack-csi-sc-syncer/main.go
use cloudstack_csi_driver.Prelude.{
  ℕ, String, Bool, Option, none, some, List, [], ◌∷◌, if◌then◌else◌,
}
use cloudstack_csi_driver.Cloud.Config.{CsConfig}
use cloudstack_csi_driver.Syncer.Labels.{SyncerConfig, Kube, new}
use cloudstack_csi_driver.Syncer.Run.{Syncer, Cluster, SyncError, run}

abbrev pub agent : String
agent = "cloudstack-csi-sc-syncer"

-- What the flags say.
pub record Flags : Type 0 where
  pub cloudstackconfig : String
  pub kubeconfig : String
  pub label : String
  pub name_prefix : String
  pub delete_unused : Bool
  pub volume_expansion : Bool
  pub show_version : Bool

abbrev pub config_of : Flags → SyncerConfig
config_of f = record {
  agent = agent;
  cloud_stack_config = f.cloudstackconfig;
  kube_config = f.kubeconfig;
  label = f.label;
  name_prefix = f.name_prefix;
  delete = f.delete_unused;
  volume_expansion = f.volume_expansion;
}

module _ (K : Cluster) where
  abbrev pub exit_code : List (SyncError K) → ℕ
  exit_code [] = 0
  exit_code (e ∷ errors) = 1

  abbrev pub synced : Option Syncer → K.State → ℕ × K.State
  synced none s = (1, s)
  synced (some y) s = let r = run K y s in (exit_code r.0, r.1)

  -- The exit code.
  unfoldable pub main : (Q : Kube) → (String → Option CsConfig) → Flags → K.State → ℕ × K.State
  unfolding new
  main Q read_file_into f s =
      if f.show_version then (0, s) else synced (new Q read_file_into (config_of f)) s
