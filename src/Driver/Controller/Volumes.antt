-- ===== src/Driver/Controller/Volumes.antt =====
-- `DeleteVolume`, `ControllerExpandVolume`, `ValidateVolumeCapabilities` and
-- `ControllerGetCapabilities` of pkg/driver/controller.go.
pub mod Laws
pub mod Grown
use cloudstack_csi_driver.Prelude.{
  Bool, true, false, not, ◌&&◌, String, Option, none, some, List, [], ◌∷◌, ◌=?◌, if◌then◌else◌,
}
use cloudstack_csi_driver.Prelude.Int.{ℤ, pos, ltb_ℤ}
use cloudstack_csi_driver.Prelude.Maps.{Map}
use cloudstack_csi_driver.Prelude.Prog.{◌>>=◌, ◌>>◌, pure, fail, require, or_fail}
use cloudstack_csi_driver.Util.Gb.{round_up_bytes_to_gb, giga_bytes_to_bytes}
use cloudstack_csi_driver.Util.VolumeLocks.{Sets}
use cloudstack_csi_driver.Util.OperationLock.{
  get_delete_lock, release_delete_lock, get_expand_lock, release_expand_lock,
}
use cloudstack_csi_driver.Cloud.{Connector, is_not_found}
use cloudstack_csi_driver.Driver.Csi.{
  status, invalid_argument, internal, out_of_range, VolumeCapability, AccessType, block,
  no_access_type, mount, CapacityRange, is_valid_volume_capabilities,
}
use cloudstack_csi_driver.Driver.Controller.{
  Handler, Try, done, failed, call, or_missing, or_internal, with_volume_lock, with_operation_lock,
}
use cloudstack_csi_driver.Driver.Controller.Create.{is_empty}

pub record ControllerExpandVolumeRequest : Type 0 where
  pub volume_id : String
  pub capacity_range : Option CapacityRange
  pub volume_capability : Option VolumeCapability

pub record ControllerExpandVolumeResponse : Type 0 where
  pub capacity_bytes : ℤ
  pub node_expansion_required : Bool

pub record ValidateVolumeCapabilitiesRequest : Type 0 where
  pub volume_id : String
  pub volume_context : Option (Map String)
  pub volume_capabilities : List VolumeCapability
  pub parameters : Option (Map String)

-- Either the three fields of the request, confirmed, or a message.
pub data ValidateVolumeCapabilitiesResponse : Type 0 where
  confirmed :
      Option (Map String)
      → List VolumeCapability
      → Option (Map String)
      → ValidateVolumeCapabilitiesResponse
  unconfirmed : ValidateVolumeCapabilitiesResponse

-- `volCap != nil && volCap.GetBlock() != nil`
abbrev pub is_block_type : AccessType → Bool
is_block_type no_access_type = false
is_block_type block = true
is_block_type (mount fs_type flags) = false

abbrev pub is_block : Option VolumeCapability → Bool
is_block none = false
is_block (some c) = is_block_type c.access_type

pub data ControllerCapability : Type 0 where
  create_delete_volume publish_unpublish_volume expand_volume create_delete_snapshot
        list_snapshots :
      ControllerCapability

unfoldable pub controller_get_capabilities : List ControllerCapability
controller_get_capabilities =
    create_delete_volume ∷ publish_unpublish_volume ∷ expand_volume ∷ create_delete_snapshot
    ∷ list_snapshots ∷ []

module _ (L : Sets) (C : Connector) where
  -- `err != nil && !errors.Is(err, ErrNotFound)` is an error.
  abbrev pub deleted : Try (Unit {0}) → Handler L C (Unit {0})
  deleted (done u) = pure tt
  deleted (failed e) = if is_not_found e then pure tt else fail (status internal)

  -- Under the delete lock of the volume.
  unfoldable pub delete_call : String → Handler L C (Unit {0})
  delete_call volume_id = do result ← call (C.delete_volume volume_id); deleted result

  -- Under the lock of the volume.
  unfoldable pub delete_locked : String → Handler L C (Unit {0})
  delete_locked volume_id =
      with_operation_lock (get_delete_lock volume_id) (release_delete_lock volume_id)
        (delete_call volume_id)

  unfoldable pub delete_volume : String → Handler L C (Unit {0})
  delete_volume volume_id = do
    require (not (volume_id =? "")) (status invalid_argument)
    with_volume_lock volume_id (delete_locked volume_id)

  -- Under the expand lock of the volume.
  unfoldable pub expand_call :
      ControllerExpandVolumeRequest → ℤ → Handler L C ControllerExpandVolumeResponse
  expand_call req size = do
    result ← call (C.expand_volume req.volume_id size)
    u ← or_internal result
    pure (record {
      capacity_bytes = giga_bytes_to_bytes size;
      node_expansion_required = not (is_block req.volume_capability);
    })

  -- Under the volume lock, with the size in GB that holds the required bytes.
  unfoldable pub expand_locked :
      ControllerExpandVolumeRequest → CapacityRange → Handler L C ControllerExpandVolumeResponse
  expand_locked req range = do
    let size = round_up_bytes_to_gb range.required_bytes
    let limit = range.limit_bytes
    require (not (ltb_ℤ (pos 0) limit && ltb_ℤ limit (giga_bytes_to_bytes size)))
        (status out_of_range)
    found ← call (C.get_volume_by_id req.volume_id)
    vol ← or_missing found
    with_operation_lock (get_expand_lock req.volume_id) (release_expand_lock req.volume_id)
        (expand_call req size)

  unfoldable pub controller_expand_volume :
      ControllerExpandVolumeRequest → Handler L C ControllerExpandVolumeResponse
  controller_expand_volume req = do
    require (not (req.volume_id =? "")) (status invalid_argument)
    range ← or_fail req.capacity_range (status invalid_argument)
    with_volume_lock req.volume_id (expand_locked req range)

  unfoldable pub validate_volume_capabilities :
      ValidateVolumeCapabilitiesRequest → Handler L C ValidateVolumeCapabilitiesResponse
  validate_volume_capabilities req = do
    require (not (req.volume_id =? "")) (status invalid_argument)
    require (not (is_empty req.volume_capabilities)) (status invalid_argument)
    found ← call (C.get_volume_by_id req.volume_id)
    vol ← or_missing found
    pure (
        if not (is_valid_volume_capabilities req.volume_capabilities)
        then unconfirmed
        else confirmed req.volume_context req.volume_capabilities req.parameters)
