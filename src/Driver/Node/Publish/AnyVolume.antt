-- ===== src/Driver/Node/Publish/AnyVolume.antt =====
-- `NodePublishVolume` of a block device, on the mounter of a machine.
use cloudstack_csi_driver.Prelude.{
  some, ◌≢◌, inl, inr, String, List, ◌≡◌, ◌<◌, false, arith, ◌=?◌, ◌∙◌, sym,
}
use cloudstack_csi_driver.Prelude.Prog.{ok, Outcome-cases}
use cloudstack_csi_driver.Util.VolumeLocks.{Sets}
use cloudstack_csi_driver.Cloud.{Connector}
use cloudstack_csi_driver.Mount.{Mounter}
use cloudstack_csi_driver.Mount.Os.{Os}
use cloudstack_csi_driver.Mount.System.{mounter}
use cloudstack_csi_driver.Mount.Search.{get_device_path_for_xen_server}
use cloudstack_csi_driver.Mount.Search.Laws.{get_device_path_any}
use cloudstack_csi_driver.Driver.Node.{NodeServer}
use cloudstack_csi_driver.Driver.Node.Publish.{
  publish_block, publish_access, NodePublishVolumeRequest, node_publish_volume, base_options,
}
use cloudstack_csi_driver.Driver.Csi.{VolumeCapability, block}

module _ (L : Sets) (C : Connector) where
  -- Where the mounter returns the same device for two volumes, they are published alike.
  publish_block_same :
      (M : Mounter) (v w target : String) (options : List String) (s : NodeServer L C M)
      → M.get_device_path v s.machine ≡ M.get_device_path w s.machine
      → publish_block L C M v target options s ≡ publish_block L C M w target options s
  unfolding publish_block
  publish_block_same M v w target options s e =
      elim (Outcome-cases (M.get_device_path v s.machine)) [
        | inl (source, m, f) ↦ ground arith
        | inr (x, m, f) ↦ ground arith
      ]

  publish_block_any :
      (O : Os) (v w x target : String) (options : List String) (s : NodeServer L C (mounter O))
      (t : O.State) (p : String)
      → get_device_path_for_xen_server O v s.machine ≡ ok p t
      → (p =? "") ≡ false
      → 0 < O.tries 20 s.machine
      → publish_block L C (mounter O) w target options s
        ≡ publish_block L C (mounter O) x target options s
  publish_block_any O v w x target options s t p h ne lt =
      publish_block_same (mounter O) w x target options s (
        get_device_path_any O v w s.machine t p h ne lt
        ∙ sym (get_device_path_any O v x s.machine t p h ne lt))

  -- On a machine where the search for a disk of Xen finds one for some volume, and there is a try, the
  -- publication of a block device has the same answer and the same effects if the request is changed
  -- to name another volume.
  pub publish_any :
      (O : Os) (v x : String) (req : NodePublishVolumeRequest) (c : VolumeCapability)
      (s : NodeServer L C (mounter O)) (t : O.State) (p : String)
      → req.volume_capability ≡ some c
      → c.access_type ≡ block
      → req.volume_id ≢ ""
      → x ≢ ""
      → get_device_path_for_xen_server O v s.machine ≡ ok p t
      → (p =? "") ≡ false
      → 0 < O.tries 20 s.machine
      → node_publish_volume L C (mounter O) req s
        ≡ node_publish_volume L C (mounter O) (record req { volume_id = x }) s
  unfolding node_publish_volume publish_access
  publish_any O v x req c s t p cap is_block here there h ne lt =
      let same =
        publish_block_any O v req.volume_id x req.target_path (base_options req.readonly) s t p h ne
          lt in
      rw cap (rw is_block (ground (arith, same)))
