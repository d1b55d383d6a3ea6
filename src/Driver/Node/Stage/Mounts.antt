-- ===== src/Driver/Node/Stage/Mounts.antt =====
-- What `NodeStageVolume` and `NodeUnstageVolume` of pkg/driver/node.go do to the mounts of a machine.
use cloudstack_csi_driver.Prelude.{[], String, List, some, ◌≡◌, arith}
use cloudstack_csi_driver.Prelude.Prog.{ok}
use cloudstack_csi_driver.Util.VolumeLocks.{Sets}
use cloudstack_csi_driver.Cloud.{Connector}
use cloudstack_csi_driver.Mount.{Mounter}
use cloudstack_csi_driver.Driver.Csi.{VolumeCapability, mount}
use cloudstack_csi_driver.Driver.Node.{NodeServer}
use cloudstack_csi_driver.Driver.Node.Table.{Table}
use cloudstack_csi_driver.Driver.Node.Stage.{
  NodeStageVolumeRequest, node_stage_volume, node_unstage_volume,
}
use cloudstack_csi_driver.Driver.Node.Stage.Mounted.{Staged, stage_volume-Staged, unstage_volume-at}

module _ (L : Sets) (C : Connector) {M : Mounter} (T : Table M) where
  -- Where `NodeStageVolume` succeeds on a request for a file system, and nothing was mounted at the
  -- staging path, the device of the volume is what is mounted there, and the other mounts are as they
  -- were. Where `NodeUnstageVolume` of that path then succeeds, in a state with the same mounts, all
  -- mounts are as they were before the staging.
  pub stage_unstage :
      (req : NodeStageVolumeRequest) (c : VolumeCapability) (fs_type : String) (flags : List String)
      (volume_id : String) (s t t' u : NodeServer L C M)
      → req.volume_capability ≡ some c
      → c.access_type ≡ mount fs_type flags
      → T.at s.machine (T.resolve req.staging_target_path) ≡ []
      → node_stage_volume L C M req s ≡ ok tt t
      → ((path : String) → T.at t'.machine path ≡ T.at t.machine path)
      → node_unstage_volume L C M volume_id req.staging_target_path t' ≡ ok tt u
      → ((device : String) × (m : M.State) × (M.get_device_path req.volume_id s.machine
            ≡ ok device m)
          × Staged L C T device req.staging_target_path s.machine t.machine)
        × ((path : String) → T.at u.machine path ≡ T.at s.machine path)
  stage_unstage req c fs_type flags volume_id s t t' u given is_mount free h same run =
      let target = req.staging_target_path in
      let staged = stage_volume-Staged L C T req c fs_type flags s t given is_mount free h in
      (
        staged,
        λ path. ground (
          arith,
          unstage_volume-at L C T volume_id target t' u path run,
          same path,
          staged.3 path,
          free,
        ),
      )
