-- ===== src/Driver/Node/Stage.antt =====
-- `NodeStageVolume` and `NodeUnstageVolume` of pkg/driver/node.go.
pub mod Laws
pub mod Mounted
pub mod Mounts
use cloudstack_csi_driver.Prelude.{
  String, Bool, true, false, not, List, [], ◌∷◌, ◌=?◌, if◌then◌else◌, Option, none, some,
}
use cloudstack_csi_driver.Prelude.Int.{ℤ, pos, eqb_ℤ}
use cloudstack_csi_driver.Prelude.Prog.{Prog, ok, err, ◌>>=◌, ◌>>◌, require, pure, or_fail, fail}
use cloudstack_csi_driver.Util.VolumeLocks.{Sets}
use cloudstack_csi_driver.Cloud.{Connector}
use cloudstack_csi_driver.Driver.Csi.{
  Code, Failure, status, invalid_argument, internal, VolumeCapability, AccessType, no_access_type,
  block, mount, is_valid_volume_capabilities,
}
use cloudstack_csi_driver.Mount.{Mounter}
use cloudstack_csi_driver.Driver.Node.{
  NodeServer, NodeHandler, Done, did, broke, run, run_or_fail, or_broken, with_lock,
}
use cloudstack_csi_driver.Driver.Node.Options.{add_flags, is_valid_fs_type, fs_type_of}

pub record NodeStageVolumeRequest : Type 0 where
  pub volume_id : String
  pub staging_target_path : String
  pub volume_capability : Option VolumeCapability

module _ (L : Sets) (C : Connector) (M : Mounter) where
  -- The call of `Resize`, where it is needed.
  abbrev pub resize_if : String → String → Bool → NodeHandler L C M (Unit {0})
  resize_if source target false = pure tt
  resize_if source target true = do grown ← run_or_fail (M.resize source target); pure tt

  -- The directory that the volume is staged to, where there is none.
  abbrev pub make_missing : String → Bool → NodeHandler L C M (Unit {0})
  make_missing target true = pure tt
  make_missing target false = run_or_fail (M.make_dir target)

  -- The device is not mounted at the target.
  unfoldable pub format_and_grow :
      String → String → String → List String → NodeHandler L C M (Unit {0})
  format_and_grow source target fs_type options = do
    u ← run_or_fail (M.format_and_mount source target fs_type options)
    need ← run_or_fail (M.need_resize source target)
    resize_if source target need

  -- From the look-up of the device that is mounted at the target on.
  abbrev pub compare_and_mount :
      String → String → String → List String → NodeHandler L C M (Unit {0})
  compare_and_mount source target fs_type options = do
    mounted ← run_or_fail (M.get_device_name target)
    if mounted.0 =? source then pure tt else format_and_grow source target fs_type options

  -- Under the lock of the volume.
  unfoldable pub stage : String → String → String → List String → NodeHandler L C M (Unit {0})
  stage volume_id target fs_type options = do
    source ← run_or_fail (M.get_device_path volume_id)
    exists ← run_or_fail (M.path_exists target)
    u ← make_missing target exists
    compare_and_mount source target fs_type options

  -- By the access type of the capability: a block device is not staged.
  unfoldable pub stage_access : String → String → AccessType → NodeHandler L C M (Unit {0})
  stage_access volume_id target block = pure tt
  stage_access volume_id target no_access_type = fail (status invalid_argument)
  stage_access volume_id target (mount fs_type flags) = do
    require (is_valid_fs_type (fs_type_of fs_type)) (status invalid_argument)
    with_lock volume_id (stage volume_id target (fs_type_of fs_type) (add_flags [] flags))

  unfoldable pub node_stage_volume : NodeStageVolumeRequest → NodeHandler L C M (Unit {0})
  node_stage_volume req = do
    require (not (req.volume_id =? "")) (status invalid_argument)
    require (not (req.staging_target_path =? "")) (status invalid_argument)
    capability ← or_fail req.volume_capability (status invalid_argument)
    require (is_valid_volume_capabilities (capability ∷ [])) (status invalid_argument)
    stage_access req.volume_id req.staging_target_path capability.access_type

  -- Under the lock of the volume.
  unfoldable pub unstage : String → NodeHandler L C M (Unit {0})
  unstage target = do
    mounted ← run_or_fail (M.get_device_name target)
    if eqb_ℤ mounted.1 (pos 0) then pure tt else run_or_fail (M.unstage target)

  unfoldable pub node_unstage_volume : String → String → NodeHandler L C M (Unit {0})
  node_unstage_volume volume_id target = do
    require (not (volume_id =? "")) (status invalid_argument)
    require (not (target =? "")) (status invalid_argument)
    with_lock volume_id (unstage target)
