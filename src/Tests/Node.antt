-- ===== src/Tests/Node.antt =====
-- Runs of the theorems on the node service.
use cloudstack_csi_driver.Prelude.{◌≡◌, String, true, false, some, [], ◌∷◌, refl, List, string_dec}
use cloudstack_csi_driver.Prelude.Int.{pos}
use cloudstack_csi_driver.Cloud.Fake.{new}
use cloudstack_csi_driver.Driver.Csi.{is_valid_volume_capabilities}
use cloudstack_csi_driver.Mount.{Mounter}
use cloudstack_csi_driver.Driver.Node.{NodeServer, new_node_server}
use cloudstack_csi_driver.Driver.Node.Options.{is_valid_fs_type, fs_type_of}
use cloudstack_csi_driver.Driver.Node.Stage.{
  NodeStageVolumeRequest, node_stage_volume, node_unstage_volume,
}
use cloudstack_csi_driver.Driver.Node.Stage.Laws.{IsStageable}
use cloudstack_csi_driver.Driver.Node.Publish.{NodePublishVolumeRequest}
use cloudstack_csi_driver.Driver.Node.Publish.Laws.{IsPublishable}
use cloudstack_csi_driver.Driver.Node.Expand.{NodeExpandVolumeRequest, node_expand_volume}
use cloudstack_csi_driver.Driver.Node.Locks.{handlers-ReturnLocks, ReturnsLocks}
use cloudstack_csi_driver.Tests.{sets, cloud, mounter, capability, differs}

abbrev staged : Mounter
staged = mounter "/dev/vdb" (pos 1) true

abbrev bare : Mounter
bare = mounter "" (pos 0) true

abbrev node : (m : Mounter) → m.State → NodeServer sets cloud m
node m s = new_node_server sets cloud m new s (pos 10) "node-1"

abbrev stage_request : NodeStageVolumeRequest
stage_request = record {
  volume_id = "v";
  staging_target_path = "/staging";
  volume_capability = some capability;
}

abbrev flags : List String
flags = "noatime" ∷ "ro" ∷ "noatime" ∷ []

capability-valid : is_valid_volume_capabilities (capability ∷ []) ≡ true
unfolding is_valid_volume_capabilities
capability-valid = refl

ext4-valid : is_valid_fs_type (fs_type_of "EXT4") ≡ true
unfolding is_valid_fs_type string_dec
ext4-valid = refl

stageable : IsStageable stage_request capability "EXT4" flags
unfolding string_dec
stageable = record {
  has_volume = differs "v" "" refl;
  has_target = differs "/staging" "" refl;
  has_capability = refl;
  is_valid = capability-valid;
  is_mount = refl;
  is_known = ext4-valid;
}

abbrev publish_request : NodePublishVolumeRequest
publish_request = record {
  volume_id = "v";
  staging_target_path = "/staging";
  target_path = "/target";
  volume_capability = some capability;
  readonly = false;
}

publishable : IsPublishable publish_request capability "EXT4" flags
unfolding string_dec
publishable = record {
  has_volume = differs "v" "" refl;
  has_source = differs "/staging" "" refl;
  has_target = differs "/target" "" refl;
  has_capability = refl;
  is_valid = capability-valid;
  is_mount = refl;
  is_known = ext4-valid;
}

handlers-ReturnLocks_example :
    ((req : NodeStageVolumeRequest)
      → ReturnsLocks sets cloud bare (node_stage_volume sets cloud bare req))
    × ((id target : String)
        → ReturnsLocks sets cloud bare (node_unstage_volume sets cloud bare id target))
    × ((req : NodeExpandVolumeRequest)
        → ReturnsLocks sets cloud bare (node_expand_volume sets cloud bare req))
handlers-ReturnLocks_example = handlers-ReturnLocks sets cloud bare
