-- ===== src/Driver/Node/Stage/Laws.antt =====
-- Staging and unstaging a volume a second time.
use cloudstack_csi_driver.Prelude.{String, true, false, some, List, ◌≡◌, ◌≢◌, refl, arith, [], ◌∷◌}
use cloudstack_csi_driver.Prelude.Int.{ℤ, pos}
use cloudstack_csi_driver.Prelude.Prog.{ok}
use cloudstack_csi_driver.Util.VolumeLocks.{Sets}
use cloudstack_csi_driver.Util.VolumeLocks
use cloudstack_csi_driver.Cloud.{Connector}
use cloudstack_csi_driver.Driver.Csi.{VolumeCapability, mount, is_valid_volume_capabilities}
use cloudstack_csi_driver.Mount.{Mounter}
use cloudstack_csi_driver.Driver.Node.{NodeServer, NodeHandler, with_lock}
use cloudstack_csi_driver.Driver.Node.Options.{is_valid_fs_type, fs_type_of}
use cloudstack_csi_driver.Driver.Node.Stage.{
  NodeStageVolumeRequest, stage, stage_access, node_stage_volume, unstage, node_unstage_volume,
}

-- A request whose arguments pass the checks, to stage a file system.
pub record IsStageable (req : NodeStageVolumeRequest) (c : VolumeCapability) (fs_type : String)
    (flags : List String) : Type 0 where
  pub has_volume : req.volume_id ≢ ""
  pub has_target : req.staging_target_path ≢ ""
  pub has_capability : req.volume_capability ≡ some c
  pub is_valid : is_valid_volume_capabilities (c ∷ []) ≡ true
  pub is_mount : c.access_type ≡ mount fs_type flags
  pub is_known : is_valid_fs_type (fs_type_of fs_type) ≡ true

-- The program succeeds from the state, and leaves the machine and the cloud as they are.
pub record Unmoved {L : Sets} {C : Connector} {M : Mounter} (p : NodeHandler L C M (Unit {0}))
    (s : NodeServer L C M) : Type 0 where
  pub after : NodeServer L C M
  pub succeeds : p s ≡ ok tt after
  pub same_machine : after.machine ≡ s.machine
  pub same_cloud : after.cloud ≡ s.cloud

module _ (L : Sets) (C : Connector) (M : Mounter) where
  -- For a request to stage a file system that passes the checks, a volume that is not locked, and a
  -- machine where the target exists and the device of the volume is mounted at it, the handler
  -- succeeds, and nothing is formatted, mounted or resized: the machine stays as it is.
  pub stage_again :
      (req : NodeStageVolumeRequest) (c : VolumeCapability) (fs_type : String) (flags : List String)
      (s : NodeServer L C M) (device : String) (refs : ℤ)
      → IsStageable req c fs_type flags
      → L.has s.volume_locks req.volume_id ≡ false
      → M.get_device_path req.volume_id s.machine ≡ ok device s.machine
      → M.path_exists req.staging_target_path s.machine ≡ ok true s.machine
      → M.get_device_name req.staging_target_path s.machine ≡ ok (device, refs) s.machine
      → Unmoved (node_stage_volume L C M req) s
  unfolding node_stage_volume stage_access stage with_lock VolumeLocks.try_acquire
  stage_again req c fs_type flags s device refs i free p q r = record {
    after = record s {
      volume_locks = VolumeLocks.release L req.volume_id (L.insert s.volume_locks req.volume_id);
    };
    succeeds = rw (i.has_capability) (rw i.is_mount (ground arith));
    same_machine = refl;
    same_cloud = refl;
  }

  -- For a volume and a target that are not empty, a volume that is not locked, and a machine where
  -- nothing is mounted at the target, the handler succeeds and the machine stays as it is.
  pub unstage_again :
      (volume_id target : String) (s : NodeServer L C M) (device : String)
      → volume_id ≢ ""
      → target ≢ ""
      → L.has s.volume_locks volume_id ≡ false
      → M.get_device_name target s.machine ≡ ok (device, pos 0) s.machine
      → Unmoved (node_unstage_volume L C M volume_id target) s
  unfolding node_unstage_volume unstage with_lock VolumeLocks.try_acquire
  unstage_again volume_id target s device p q free r = record {
    after = record s {
      volume_locks = VolumeLocks.release L volume_id (L.insert s.volume_locks volume_id);
    };
    succeeds = ground arith;
    same_machine = refl;
    same_cloud = refl;
  }
