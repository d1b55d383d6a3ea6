-- ===== src/Driver/Node/Expand.antt =====
-- `NodeExpandVolume` and `NodeGetVolumeStats` of pkg/driver/node.go.
use cloudstack_csi_driver.Prelude.{
  String, Bool, true, false, not, List, [], ◌∷◌, ◌=?◌, if◌then◌else◌, Option, none, some,
}
use cloudstack_csi_driver.Prelude.Int.{ℤ, pos}
use cloudstack_csi_driver.Prelude.Prog.{◌>>=◌, ◌>>◌, require, pure, fail}
use cloudstack_csi_driver.Util.VolumeLocks.{Sets}
use cloudstack_csi_driver.Cloud.{Connector, Volume, is_not_found}
use cloudstack_csi_driver.Driver.Csi.{
  status, invalid_argument, internal, not_found, VolumeCapability, is_valid_volume_capabilities,
}
use cloudstack_csi_driver.Driver.Controller.{Try, done, failed}
use cloudstack_csi_driver.Driver.Controller.Volumes.{is_block_type}
use cloudstack_csi_driver.Mount.{Mounter, VolumeStatistics}
use cloudstack_csi_driver.Driver.Node.{
  NodeHandler, Done, did, broke, run, run_or_fail, with_lock, ask,
}

pub record NodeExpandVolumeRequest : Type 0 where
  pub volume_id : String
  pub volume_path : String
  pub staging_target_path : String
  pub volume_capability : Option VolumeCapability

pub data UsageUnit : Type 0 where
  bytes inodes : UsageUnit

pub record VolumeUsage : Type 0 where
  pub available : ℤ
  pub total : ℤ
  pub used : ℤ
  pub unit : UsageUnit

-- The staging path, or the volume path where there is none.
abbrev pub path_of : String → String → String
path_of staging_target_path volume_path =
    if staging_target_path =? "" then volume_path else staging_target_path

module _ (L : Sets) (C : Connector) (M : Mounter) where
  abbrev pub volume_known : Try Volume → NodeHandler L C M (Unit {0})
  volume_known (done vol) = pure tt
  volume_known (failed e) = fail (status (if is_not_found e then not_found else internal))

  -- The device, which is empty where the look-up failed.
  abbrev pub device_or_empty : Done M.Error String → String
  device_or_empty (did path) = path
  device_or_empty (broke e) = ""

  -- Under the lock of the volume.
  unfoldable pub grow : String → String → NodeHandler L C M ℤ
  grow volume_id path = do
    found ← ask (C.get_volume_by_id volume_id)
    u ← volume_known found
    result ← run (M.get_device_path volume_id)
    let device = device_or_empty result
    require (not (device =? "")) (status internal)
    resized ← run_or_fail (M.resize device path)
    run_or_fail (M.get_block_size_bytes device)

  -- Without a capability the path tells whether this is a block device.
  abbrev pub grow_path : String → String → Bool → NodeHandler L C M ℤ
  grow_path volume_id path true = run_or_fail (M.get_block_size_bytes path)
  grow_path volume_id path false = with_lock volume_id (grow volume_id path)

  unfoldable pub grow_capability : String → String → Option VolumeCapability → NodeHandler L C M ℤ
  grow_capability volume_id path (some c) = do
    require (is_valid_volume_capabilities (c ∷ [])) (status invalid_argument)
    if is_block_type c.access_type then pure (pos 0) else with_lock volume_id (grow volume_id path)
  grow_capability volume_id path none = do
    block ← run_or_fail (M.is_block_device path)
    grow_path volume_id path block

  -- The answer is the capacity in bytes, 0 where the source leaves it out.
  unfoldable pub node_expand_volume : NodeExpandVolumeRequest → NodeHandler L C M ℤ
  node_expand_volume req = do
    require (not (req.volume_id =? "")) (status invalid_argument)
    let path = path_of req.staging_target_path req.volume_path
    require (not (path =? "")) (status invalid_argument)
    grow_capability req.volume_id path req.volume_capability

  abbrev pub usage : VolumeStatistics → List VolumeUsage
  usage stats =
      record {
        available = stats.available_bytes;
        total = stats.total_bytes;
        used = stats.used_bytes;
        unit = bytes;
      }
      ∷ record {
        available = stats.available_inodes;
        total = stats.total_inodes;
        used = stats.used_inodes;
        unit = inodes;
      }
      ∷ []

  abbrev pub total_only : ℤ → List VolumeUsage
  total_only n = record { available = pos 0; total = n; used = pos 0; unit = bytes } ∷ []

  -- The size of a block device is read at the volume path of the request.
  abbrev pub usage_of : String → String → Bool → NodeHandler L C M (List VolumeUsage)
  usage_of path volume_path true = do
    n ← run_or_fail (M.get_block_size_bytes volume_path)
    pure (total_only n)
  usage_of path volume_path false = do
    stats ← run_or_fail (M.get_statistics path)
    pure (usage stats)

  -- volume, volume path, staging target path
  unfoldable pub node_get_volume_stats :
      String → String → String → NodeHandler L C M (List VolumeUsage)
  node_get_volume_stats volume_id volume_path staging_target_path = do
    require (not (volume_id =? "")) (status invalid_argument)
    let path = path_of staging_target_path volume_path
    require (not (path =? "")) (status invalid_argument)
    exists ← run_or_fail (M.path_exists path)
    require exists (status not_found)
    block ← run_or_fail (M.is_block_device path)
    usage_of path volume_path block
