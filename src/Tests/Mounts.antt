-- ===== src/Tests/Mounts.antt =====
-- Runs of the theorems on the mounts of a node, on the mounter of a machine with a table of mounts.
use cloudstack_csi_driver.Prelude.{String, false, [], ◌∷◌, ◌≡◌, refl, ◌=?◌, string_dec, some}
use cloudstack_csi_driver.Prelude.Strings.{trim_space, split}
use cloudstack_csi_driver.Prelude.Maps.{lookup, insert, erase}
use cloudstack_csi_driver.Prelude.Int.{pos}
use cloudstack_csi_driver.Prelude.Prog.{ok}
use cloudstack_csi_driver.Util.VolumeLocks.{try_acquire, release}
use cloudstack_csi_driver.Cloud.Fake.{new}
use cloudstack_csi_driver.Mount.System.{mounter}
use cloudstack_csi_driver.Mount.Device.{
  verify_device, is_block_device, get_block_size_bytes, is_device_mounted, get_device_properties,
  add_properties,
}
use cloudstack_csi_driver.Mount.Search.{
  scan, usable, get_device_path, get_device_path_for_xen_server, get_device_path_by_serial_id, poll,
}
use cloudstack_csi_driver.Mount.Files.{
  make_dir, unstage, unpublish, get_device_name, path_exists, resize, need_resize,
}
use cloudstack_csi_driver.Driver.Csi.{is_valid_volume_capabilities}
use cloudstack_csi_driver.Driver.Node.{NodeServer, new_node_server, with_lock}
use cloudstack_csi_driver.Driver.Node.Options.{is_valid_fs_type}
use cloudstack_csi_driver.Driver.Node.Stage
use cloudstack_csi_driver.Driver.Node.Stage.{
  node_stage_volume, node_unstage_volume, stage_access, stage, format_and_grow,
}
use cloudstack_csi_driver.Driver.Node.Publish.{
  node_publish_volume, node_unpublish_volume, publish_access, publish_mount, is_mounted,
}
use cloudstack_csi_driver.Driver.Node.Lifecycle.{AreOfOne, CameAndWent, node_lifecycle}
use cloudstack_csi_driver.Tests.{sets, cloud, capability}
use cloudstack_csi_driver.Driver.Node.Machine.{mounter-Table}
use cloudstack_csi_driver.Driver.Node.Stage.Mounted.{Staged}
use cloudstack_csi_driver.Driver.Node.Stage.Mounts.{stage_unstage}
use cloudstack_csi_driver.Driver.Node.Publish.Mounts.{Published, publish_unpublish}
use cloudstack_csi_driver.Driver.Node.Options.{has_mount_option, add_flags}
use cloudstack_csi_driver.Driver.Node.Stage.{NodeStageVolumeRequest}
use cloudstack_csi_driver.Driver.Node.Publish.{NodePublishVolumeRequest}
use cloudstack_csi_driver.Tests.Machine.{MountTable, at, system, system-Mounts}

abbrev pub request : NodeStageVolumeRequest
request = record {
  volume_id = "v";
  staging_target_path = "/staging";
  volume_capability = some capability;
}

abbrev pub publish_request : NodePublishVolumeRequest
publish_request = record {
  volume_id = "v";
  staging_target_path = "/staging";
  target_path = "/target";
  volume_capability = some capability;
  readonly = false;
}

abbrev one_mount : MountTable
one_mount = ("/", "/dev/sda" ∷ []) ∷ []

abbrev node : MountTable → NodeServer sets cloud (mounter system)
node s = new_node_server sets cloud (mounter system) new s (pos 10) "node-1"

-- The mounts after the first and after the second call.
abbrev staged : MountTable
staged = insert "/staging" ("/dev/xvdb" ∷ []) one_mount

abbrev published : MountTable
published = insert "/target" ("/dev/xvdb" ∷ []) staged

stages :
    node_stage_volume sets cloud (mounter system) request (node one_mount) ≡ ok tt (node staged)
unfolding node_stage_volume stage_access stage format_and_grow with_lock try_acquire release
    new_node_server string_dec is_valid_volume_capabilities is_valid_fs_type lookup insert
    path_exists make_dir get_device_name need_resize resize get_device_path poll
    get_device_path_by_serial_id get_device_path_for_xen_server scan usable verify_device
    is_block_device get_block_size_bytes is_device_mounted get_device_properties trim_space
    add_properties split
stages = refl

publishes :
    node_publish_volume sets cloud (mounter system) publish_request (node staged)
    ≡ ok tt (node published)
unfolding node_publish_volume publish_access publish_mount is_mounted new_node_server string_dec
    has_mount_option add_flags is_valid_volume_capabilities is_valid_fs_type lookup insert
publishes = refl

unpublishes :
    node_unpublish_volume sets cloud (mounter system) "v" "/target" (node published)
    ≡ ok tt (node staged)
unfolding node_unpublish_volume new_node_server string_dec insert erase unpublish unstage lookup
unpublishes = refl

unstages :
    node_unstage_volume sets cloud (mounter system) "v" "/staging" (node staged)
    ≡ ok tt (node one_mount)
unfolding node_unstage_volume Stage.unstage with_lock try_acquire release new_node_server string_dec
    lookup insert erase unstage get_device_name
unstages = refl

of_one : AreOfOne request publish_request
of_one = record {
  stage_capability = capability;
  stage_given = refl;
  stage_type = "EXT4";
  stage_flags = "noatime" ∷ "ro" ∷ "noatime" ∷ [];
  stage_mount = refl;
  publish_capability = capability;
  publish_given = refl;
  publish_type = "EXT4";
  publish_flags = "noatime" ∷ "ro" ∷ "noatime" ∷ [];
  publish_mount = refl;
  same_path = refl;
}

nothing_staged : at one_mount "/staging" ≡ []
unfolding lookup string_dec
nothing_staged = refl

nothing_there : at one_mount "/target" ≡ []
unfolding lookup string_dec
nothing_there = refl

nothing_at_target : at staged "/target" ≡ []
unfolding lookup insert string_dec
nothing_at_target = refl

one_staged : at staged "/staging" ≡ "/dev/xvdb" ∷ []
unfolding lookup insert string_dec
one_staged = refl

apart : ("/target" =? "/staging") ≡ false
unfolding string_dec
apart = refl

stage_unstage_example :
    ((device : String) × (m : MountTable) × (get_device_path system "v" one_mount ≡ ok device m)
      × Staged sets cloud (mounter-Table system system-Mounts) device "/staging" one_mount staged)
    × ((path : String) → at one_mount path ≡ at one_mount path)
unfolding new_node_server mounter-Table
stage_unstage_example =
    stage_unstage sets cloud (mounter-Table system system-Mounts) request capability "EXT4"
      ("noatime" ∷ "ro" ∷ "noatime" ∷ []) "v" (node one_mount) (node staged) (node staged)
      (node one_mount) refl refl nothing_staged stages (λ path. refl) unstages

publish_unpublish_example :
    Published sets cloud (mounter-Table system system-Mounts) "/dev/xvdb" "/target" staged published
    × ((path : String) → at staged path ≡ at staged path)
unfolding new_node_server mounter-Table
publish_unpublish_example =
    publish_unpublish sets cloud (mounter-Table system system-Mounts) publish_request capability
      "EXT4" ("noatime" ∷ "ro" ∷ "noatime" ∷ []) "v" "/dev/xvdb" (node staged) (node published)
      (node published) (node staged) refl refl one_staged nothing_at_target publishes (λ path. refl)
      unpublishes

node_lifecycle_example :
    (device : String) × (m : MountTable) × (get_device_path system "v" one_mount ≡ ok device m)
    × CameAndWent at
        (system-Mounts.real device)
        "/staging"
        "/target"
        one_mount
        staged
        published
        one_mount
unfolding new_node_server
node_lifecycle_example =
    node_lifecycle sets cloud system system-Mounts request publish_request of_one "v" "v"
      (node one_mount) (node staged) (node published) (node staged) (node one_mount) apart
      nothing_staged nothing_there stages publishes unpublishes unstages
