-- ===== src/Driver/Node/Publish.antt =====
-- `NodePublishVolume` and `NodeUnpublishVolume` of pkg/driver/node.go.
pub mod Laws
pub mod AnyVolume
pub mod Mounts
use cloudstack_csi_driver.Prelude.{
  String, Bool, true, false, not, ◌&&◌, List, [], ◌∷◌, ◌=?◌, if◌then◌else◌, Option, none, some,
}
use cloudstack_csi_driver.Prelude.Prog.{Prog, ok, err, ◌>>=◌, ◌>>◌, require, pure, or_fail, fail}
use cloudstack_csi_driver.Util.VolumeLocks.{Sets}
use cloudstack_csi_driver.Cloud.{Connector}
use cloudstack_csi_driver.Driver.Csi.{
  Code, Failure, status, invalid_argument, internal, VolumeCapability, AccessType, no_access_type,
  block, mount, is_valid_volume_capabilities,
}
use cloudstack_csi_driver.Prelude.Paths.{dir}
use cloudstack_csi_driver.Mount.{Mounter}
use cloudstack_csi_driver.Driver.Node.{
  NodeServer, NodeHandler, Done, did, broke, run, run_or_fail, or_broken,
}
use cloudstack_csi_driver.Driver.Node.Options.{add_flags, is_valid_fs_type, fs_type_of}

pub record NodePublishVolumeRequest : Type 0 where
  pub volume_id : String
  pub staging_target_path : String
  pub target_path : String
  pub volume_capability : Option VolumeCapability
  pub readonly : Bool

-- What `isMounted` returns: the error for which `os.IsNotExist` holds, another error, which
-- `fmt.Errorf` makes, or whether the target is a mount point.
pub data Mounted : Type 0 where
  missing unclear : Mounted
  mounted : Bool → Mounted

abbrev pub base_options : Bool → List String
base_options readonly = if readonly then "bind" ∷ "ro" ∷ [] else "bind" ∷ []

module _ (L : Sets) (C : Connector) (M : Mounter) where
  -- A corrupted mount was unmounted, or not.
  abbrev pub recovered : Done M.Error (Unit {0}) → NodeHandler L C M Mounted
  recovered (did u) = pure (mounted false)
  recovered (broke e) = pure unclear

  -- The check of the path, after an error that is not `os.IsNotExist`.
  abbrev pub checked : String → Done M.Error Bool → NodeHandler L C M Mounted
  checked target (did b) = pure unclear
  checked target (broke e) =
      if M.is_corrupted_mnt e
      then (do result ← run (M.unpublish target); recovered result)
      else pure unclear

  abbrev pub likely : String → Done M.Error Bool → NodeHandler L C M Mounted
  likely target (did not_mount) = pure (mounted (not not_mount))
  likely target (broke e) =
      if M.is_not_exist e
      then pure missing
      else (do result ← run (M.path_exists target); checked target result)

  unfoldable pub is_mounted : String → NodeHandler L C M Mounted
  is_mounted target = do result ← run (M.is_likely_not_mount_point target); likely target result

  -- The target directory, where there is none; and whether it is a mount point.
  abbrev pub mount_point : String → Mounted → NodeHandler L C M Bool
  mount_point target missing = do u ← run_or_fail (M.make_dir target); pure false
  mount_point target unclear = fail (status internal)
  mount_point target (mounted b) = pure b

  -- The case of a file system that is mounted.
  unfoldable pub publish_mount :
      String → String → List String → String → List String → NodeHandler L C M (Unit {0})
  publish_mount source target options fs_type flags = do
    state ← is_mounted target
    is_there ← mount_point target state
    if is_there then pure tt else do
      require (is_valid_fs_type (fs_type_of fs_type)) (status invalid_argument)
      run_or_fail (M.mount source target (fs_type_of fs_type) (add_flags options flags))

  -- `os.Remove` of the target, after a failure; the answer is Internal in any case.
  abbrev pub removed : {A : Type 0} → String → NodeHandler L C M A
  removed target = do result ← run (M.remove target); fail (status internal)

  abbrev pub or_removed : String → Done M.Error (Unit {0}) → NodeHandler L C M (Unit {0})
  or_removed target (did u) = pure tt
  or_removed target (broke e) = removed target

  abbrev pub make_missing_dir : String → Bool → NodeHandler L C M (Unit {0})
  make_missing_dir path true = pure tt
  make_missing_dir path false = run_or_fail (M.make_dir path)

  -- The target file, where there is none; and whether it is a mount point.
  abbrev pub mount_file : String → Mounted → NodeHandler L C M Bool
  mount_file target missing = do
    result ← run (M.make_file target)
    u ← or_removed target result
    pure false
  mount_file target unclear = fail (status internal)
  mount_file target (mounted b) = pure b

  -- The case of a block device.
  unfoldable pub publish_block : String → String → List String → NodeHandler L C M (Unit {0})
  publish_block volume_id target options = do
    source ← run_or_fail (M.get_device_path volume_id)
    exists ← run_or_fail (M.path_exists (dir target))
    u ← make_missing_dir (dir target) exists
    state ← is_mounted target
    is_there ← mount_file target state
    if is_there
        then pure tt
        else do result ← run (M.mount source target "" options); or_removed target result

  -- By the access type; without one the handler does nothing.
  unfoldable pub publish_access :
      String → String → String → List String → AccessType → NodeHandler L C M (Unit {0})
  publish_access volume_id source target options (mount fs_type flags) =
      publish_mount source target options fs_type flags
  publish_access volume_id source target options block = publish_block volume_id target options
  publish_access volume_id source target options no_access_type = pure tt

  unfoldable pub node_publish_volume : NodePublishVolumeRequest → NodeHandler L C M (Unit {0})
  node_publish_volume req = do
    require (not (req.volume_id =? "")) (status invalid_argument)
    require (not (req.staging_target_path =? "")) (status invalid_argument)
    require (not (req.target_path =? "")) (status invalid_argument)
    capability ← or_fail req.volume_capability (status invalid_argument)
    require (is_valid_volume_capabilities (capability ∷ [])) (status invalid_argument)
    publish_access req.volume_id req.staging_target_path req.target_path (base_options req.readonly)
        capability.access_type

  unfoldable pub node_unpublish_volume : String → String → NodeHandler L C M (Unit {0})
  node_unpublish_volume volume_id target = do
    require (not (volume_id =? "")) (status invalid_argument)
    require (not (target =? "")) (status invalid_argument)
    run_or_fail (M.unpublish target)
