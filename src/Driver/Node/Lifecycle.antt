-- ===== src/Driver/Node/Lifecycle.antt =====
-- A volume on a node from its staging to its unstaging, through the handlers of pkg/driver/node.go, on
-- the mounter of pkg/mount/mount.go.
use cloudstack_csi_driver.Prelude.{String, List, some, ◌≡◌, ◌=?◌, false, arith, refl, ◌∷◌, []}
use cloudstack_csi_driver.Prelude.Prog.{ok}
use cloudstack_csi_driver.Util.VolumeLocks.{Sets}
use cloudstack_csi_driver.Cloud.{Connector}
use cloudstack_csi_driver.Mount.{Mounter}
use cloudstack_csi_driver.Mount.Os.{Os}
use cloudstack_csi_driver.Mount.Mounts.{Mounts}
use cloudstack_csi_driver.Mount.Search.{get_device_path}
use cloudstack_csi_driver.Mount.System.{mounter}
use cloudstack_csi_driver.Driver.Csi.{VolumeCapability, mount}
use cloudstack_csi_driver.Driver.Node.{NodeServer, Mounter}
use cloudstack_csi_driver.Driver.Node.Table.{Table}
use cloudstack_csi_driver.Driver.Node.Machine.{mounter-Table}
use cloudstack_csi_driver.Driver.Node.Stage.{
  NodeStageVolumeRequest, node_stage_volume, node_unstage_volume,
}
use cloudstack_csi_driver.Driver.Node.Stage.Mounted.{stage_volume-Staged, unstage_volume-at}
use cloudstack_csi_driver.Driver.Node.Publish.{
  NodePublishVolumeRequest, node_publish_volume, node_unpublish_volume,
}
use cloudstack_csi_driver.Driver.Node.Publish.Mounts.{publish_unpublish}

-- Requests to stage a file system, and to publish it from there.
pub record AreOfOne (r : NodeStageVolumeRequest) (p : NodePublishVolumeRequest) : Type 0 where
  pub stage_capability : VolumeCapability
  pub stage_given : r.volume_capability ≡ some stage_capability
  pub stage_type : String
  pub stage_flags : List String
  pub stage_mount : stage_capability.access_type ≡ mount stage_type stage_flags
  pub publish_capability : VolumeCapability
  pub publish_given : p.volume_capability ≡ some publish_capability
  pub publish_type : String
  pub publish_flags : List String
  pub publish_mount : publish_capability.access_type ≡ mount publish_type publish_flags
  pub same_path : p.staging_target_path ≡ r.staging_target_path

-- What is mounted at the two mount points after the first call and after the second, and that all is as
-- it was in the end.
abbrev pub CameAndWent :
    {S : Type 0} → (S → String → List String) → String → String → String → S → S → S → S → Type 0
CameAndWent at device source target s s₁ s₂ s₄ =
    (at s₁ source ≡ device ∷ [])
    × (at s₂ target ≡ device ∷ [])
    × ((path : String) → at s₄ path ≡ at s path)

module _ (L : Sets) (C : Connector) {M : Mounter} (T : Table M) where
  on_table :
      (r : NodeStageVolumeRequest) (p : NodePublishVolumeRequest) (k : AreOfOne r p) (v w : String)
      (s s₁ s₂ s₃ s₄ : NodeServer L C M)
      → (T.resolve p.target_path =? T.resolve r.staging_target_path) ≡ false
      → T.at s.machine (T.resolve r.staging_target_path) ≡ []
      → T.at s.machine (T.resolve p.target_path) ≡ []
      → node_stage_volume L C M r s ≡ ok tt s₁
      → node_publish_volume L C M p s₁ ≡ ok tt s₂
      → node_unpublish_volume L C M v p.target_path s₂ ≡ ok tt s₃
      → node_unstage_volume L C M w r.staging_target_path s₃ ≡ ok tt s₄
      → (device : String) × (m : M.State) × (M.get_device_path r.volume_id s.machine ≡ ok device m)
        × CameAndWent T.at
            (T.real device)
            (T.resolve r.staging_target_path)
            (T.resolve p.target_path)
            s.machine
            s₁.machine
            s₂.machine
            s₄.machine
  on_table r p k v w s s₁ s₂ s₃ s₄ apart free clear h₁ h₂ h₃ h₄ =
      let source = T.resolve r.staging_target_path in
      let target = T.resolve p.target_path in
      let (device, m, found, staged) =
        stage_volume-Staged L C T r k.stage_capability k.stage_type k.stage_flags s s₁ k.stage_given
          k.stage_mount free h₁ in
      let there : T.at s₁.machine source ≡ T.real device ∷ [] = ground (arith, staged source) in
      let (published, restored) =
        publish_unpublish L C T p k.publish_capability k.publish_type k.publish_flags v
          (T.real device) s₁ s₂ s₂ s₃ k.publish_given k.publish_mount (rw k.same_path there)
          (ground (arith, staged target, apart, clear)) h₂ (λ path. refl) h₃ in
      (
        device,
        m,
        found,
        (
          there,
          ground (arith, published target),
          λ path. ground (
            arith,
            unstage_volume-at L C T w r.staging_target_path s₃ s₄ path h₄,
            restored path,
            staged path,
            free,
          ),
        ),
      )

module _ (L : Sets) (C : Connector) (O : Os) (T : Mounts O) where
  -- For requests to stage a file system and to publish it from there, where the two paths mean
  -- different mount points at which nothing is mounted: where `NodeStageVolume`, `NodePublishVolume`,
  -- `NodeUnpublishVolume` and `NodeUnstageVolume` succeed in this order on the mounter of the machine,
  -- the device that the search found for the volume was what was mounted at the staging path after
  -- the first call and at the target after the second, and in the end all mounts are as they were.
  pub node_lifecycle :
      (r : NodeStageVolumeRequest) (p : NodePublishVolumeRequest) (k : AreOfOne r p) (v w : String)
      (s s₁ s₂ s₃ s₄ : NodeServer L C (mounter O))
      → (T.resolve p.target_path =? T.resolve r.staging_target_path) ≡ false
      → T.at s.machine (T.resolve r.staging_target_path) ≡ []
      → T.at s.machine (T.resolve p.target_path) ≡ []
      → node_stage_volume L C (mounter O) r s ≡ ok tt s₁
      → node_publish_volume L C (mounter O) p s₁ ≡ ok tt s₂
      → node_unpublish_volume L C (mounter O) v p.target_path s₂ ≡ ok tt s₃
      → node_unstage_volume L C (mounter O) w r.staging_target_path s₃ ≡ ok tt s₄
      → (device : String) × (m : O.State) × (get_device_path O r.volume_id s.machine ≡ ok device m)
        × CameAndWent T.at
            (T.real device)
            (T.resolve r.staging_target_path)
            (T.resolve p.target_path)
            s.machine
            s₁.machine
            s₂.machine
            s₄.machine
  unfolding mounter-Table
  node_lifecycle r p k v w s s₁ s₂ s₃ s₄ apart free clear h₁ h₂ h₃ h₄ =
      on_table L C (mounter-Table O T) r p k v w s s₁ s₂ s₃ s₄ apart free clear h₁ h₂ h₃ h₄
