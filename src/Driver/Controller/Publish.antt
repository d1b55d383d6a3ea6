-- ===== src/Driver/Controller/Publish.antt =====
-- `ControllerPublishVolume` and `ControllerUnpublishVolume` of pkg/driver/controller.go.
pub mod Unpublish
use cloudstack_csi_driver.Prelude.{
  Bool, true, false, not, ◌&&◌, String, Option, none, some, List, [], ◌∷◌, ◌=?◌, if◌then◌else◌,
}
use cloudstack_csi_driver.Prelude.Maps.{Map}
use cloudstack_csi_driver.Prelude.Prog.{Prog, ok, err, ◌>>=◌, ◌>>◌, pure, fail, require, or_fail}
use cloudstack_csi_driver.Util.VolumeLocks.{Sets}
use cloudstack_csi_driver.Cloud.{Connector, Volume, Vm, is_not_found}
use cloudstack_csi_driver.Driver.Csi.{
  Code, Failure, status, invalid_argument, internal, already_exists, VolumeCapability, AccessMode,
  is_single_node_writer, device_id_context_key,
}
use cloudstack_csi_driver.Driver.Controller.{
  Server, Handler, Try, done, failed, call, or_missing, or_internal,
}

pub record ControllerPublishVolumeRequest : Type 0 where
  pub volume_id : String
  pub node_id : String
  pub volume_capability : Option VolumeCapability
  pub readonly : Bool

-- `GetAccessMode().GetMode()` of no access mode is UNKNOWN.
abbrev pub is_writer : Option AccessMode → Bool
is_writer none = false
is_writer (some m) = is_single_node_writer m

-- The publish context of the answer.
abbrev pub publish_context : String → Map String
publish_context device = (device_id_context_key, device) ∷ []

module _ (L : Sets) (C : Connector) where
  -- After the checks of the arguments.
  unfoldable pub attach : String → String → Handler L C (Map String)
  attach volume_id node_id = do
    found ← call (C.get_volume_by_id volume_id)
    vol ← or_missing found
    require (not (not (vol.virtual_machine_id =? "") && not (vol.virtual_machine_id =? node_id)))
        (status already_exists)
    machine ← call (C.get_vm_by_id node_id)
    vm ← or_missing machine
    if vol.virtual_machine_id =? node_id then pure (publish_context vol.device_id) else do
      result ← call (C.attach_volume volume_id node_id)
      device ← or_internal result
      pure (publish_context device)

  unfoldable pub controller_publish_volume :
      ControllerPublishVolumeRequest → Handler L C (Map String)
  unfolding attach
  controller_publish_volume req = do
    require (not (req.volume_id =? "")) (status invalid_argument)
    require (not (req.node_id =? "")) (status invalid_argument)
    require (not req.readonly) (status invalid_argument)
    capability ← or_fail req.volume_capability (status invalid_argument)
    require (is_writer capability.access_mode) (status invalid_argument)
    attach req.volume_id req.node_id

  -- The check of the machine, and the call that detaches.
  abbrev pub detach_from : String → Try Vm → Handler L C (Unit {0})
  detach_from volume_id (done vm) = do result ← call (C.detach_volume volume_id); or_internal result
  detach_from volume_id (failed e) = if is_not_found e then pure tt else fail (status internal)

  -- The check of the volume.
  abbrev pub detach_found : String → String → Try Volume → Handler L C (Unit {0})
  detach_found volume_id node_id (failed e) =
      if is_not_found e then pure tt else fail (status internal)
  detach_found volume_id node_id (done vol) =
      if not (node_id =? "") && not (vol.virtual_machine_id =? node_id)
      then pure tt
      else do machine ← call (C.get_vm_by_id node_id); detach_from volume_id machine

  unfoldable pub controller_unpublish_volume : String → String → Handler L C (Unit {0})
  controller_unpublish_volume volume_id node_id = do
    require (not (volume_id =? "")) (status invalid_argument)
    found ← call (C.get_volume_by_id volume_id)
    detach_found volume_id node_id found
