-- ===== src/Driver/Node/Publish/Laws.antt =====
-- The mount that publishes a file system.
use cloudstack_csi_driver.Prelude.{
  String, Bool, true, false, some, List, ◌≡◌, ◌≢◌, ◌||◌, refl, ◌∙◌, string_dec, if◌then◌else◌,
  arith, [], ◌∷◌,
}
use cloudstack_csi_driver.Prelude.Prog.{ok}
use cloudstack_csi_driver.Util.VolumeLocks.{Sets}
use cloudstack_csi_driver.Cloud.{Connector}
use cloudstack_csi_driver.Driver.Csi.{VolumeCapability, mount, is_valid_volume_capabilities}
use cloudstack_csi_driver.Mount.{Mounter}
use cloudstack_csi_driver.Driver.Node.{NodeServer, run_or_fail}
use cloudstack_csi_driver.Driver.Node.Options.{
  is_valid_fs_type, fs_type_of, add_flags, has_mount_option,
}
use cloudstack_csi_driver.Driver.Node.Options.Laws.{add_flags_lem, no_duplicate}
use cloudstack_csi_driver.Driver.Node.Publish.{
  NodePublishVolumeRequest, node_publish_volume, publish_access, publish_mount, is_mounted,
  base_options,
}

-- A request whose arguments pass the checks, to publish a file system.
pub record IsPublishable (req : NodePublishVolumeRequest) (c : VolumeCapability) (fs_type : String)
    (flags : List String) : Type 0 where
  pub has_volume : req.volume_id ≢ ""
  pub has_source : req.staging_target_path ≢ ""
  pub has_target : req.target_path ≢ ""
  pub has_capability : req.volume_capability ≡ some c
  pub is_valid : is_valid_volume_capabilities (c ∷ []) ≡ true
  pub is_mount : c.access_type ≡ mount fs_type flags
  pub is_known : is_valid_fs_type (fs_type_of fs_type) ≡ true

-- The options of the mount.
abbrev pub options_of : NodePublishVolumeRequest → List String → List String
options_of req flags = add_flags (base_options req.readonly) flags

base_options_lem :
    (readonly : Bool)
    → (no_duplicate (base_options readonly) ≡ true)
      × (has_mount_option (base_options readonly) "bind" ≡ true)
      × (has_mount_option (base_options readonly) "ro" ≡ readonly)
unfolding has_mount_option string_dec
base_options_lem true = (refl, refl, refl)
base_options_lem false = (refl, refl, refl)

options_of_lem :
    (req : NodePublishVolumeRequest) (flags : List String)
    → (no_duplicate (options_of req flags) ≡ true)
      × (has_mount_option (options_of req flags) "bind" ≡ true)
      × (has_mount_option (options_of req flags) "ro"
          ≡ (req.readonly || has_mount_option flags "ro"))
options_of_lem req flags =
    let base = base_options_lem req.readonly in
    let rest = add_flags_lem (base_options req.readonly) flags base.0 in
    (rest.0, rest.1 "bind" ∙ rw base.1 refl, rest.1 "ro" ∙ rw base.2 refl)

module _ (L : Sets) (C : Connector) (M : Mounter) where
  -- For a request to publish a file system that passes the checks: where the target is a directory
  -- that is no mount point, the handler mounts the staging path at the target, with its answer and
  -- its state those of that one call; where the target is a mount point, the handler succeeds and
  -- only the machine changes, as the check of the target left it. The options of the mount have no
  -- duplicate, contain "bind", and contain "ro" just if the request is read-only or has that flag.
  pub publish_mounts :
      (req : NodePublishVolumeRequest) (c : VolumeCapability) (fs_type : String)
      (flags : List String) (s : NodeServer L C M) (not_mount : Bool) (m : M.State)
      → IsPublishable req c fs_type flags
      → M.is_likely_not_mount_point req.target_path s.machine ≡ ok not_mount m
      → (node_publish_volume L C M req s ≡ (
          if not_mount
          then run_or_fail
              (M.mount req.staging_target_path req.target_path
                (fs_type_of fs_type)
                (options_of req flags))
              (record s { machine = m })
          else ok tt (record s { machine = m })))
        × (no_duplicate (options_of req flags) ≡ true)
        × (has_mount_option (options_of req flags) "bind" ≡ true)
        × (has_mount_option (options_of req flags) "ro"
            ≡ (req.readonly || has_mount_option flags "ro"))
  unfolding node_publish_volume publish_access publish_mount is_mounted
  publish_mounts req c fs_type flags s not_mount m i p =
      let options = options_of_lem req flags in
      (rw i.has_capability (rw i.is_mount (ground arith)), options.0, options.1, options.2)
