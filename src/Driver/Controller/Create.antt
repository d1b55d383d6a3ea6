-- ===== src/Driver/Controller/Create.antt =====
-- `CreateVolume` of pkg/driver/controller.go.
pub mod Laws
pub mod Existing
pub mod Twice
pub mod Anywhere
pub mod Panics
pub mod Creation
pub mod Lifecycle
use cloudstack_csi_driver.Prelude.{
  ℕ, ◌%◌, Bool, true, false, not, ◌&&◌, String, Option, none, some, List, [], ◌∷◌, ◌=?◌, ◌==◌,
  if◌then◌else◌, length, get_elem?,
}
use cloudstack_csi_driver.Prelude.Int.{ℤ, ltb_ℤ}
use cloudstack_csi_driver.Prelude.Maps.{Map}
use cloudstack_csi_driver.Prelude.Prog.{Prog, ok, err, ◌>>=◌, ◌>>◌, pure, fail, require, or_fail}
use cloudstack_csi_driver.Util.Gb.{round_up_bytes_to_gb, giga_bytes_to_bytes}
use cloudstack_csi_driver.Util.VolumeLocks.{Sets}
use cloudstack_csi_driver.Cloud.{Connector, Volume, Snapshot, Err, is_not_found}
use cloudstack_csi_driver.Driver.Csi.{
  Code, Failure, status, panic, invalid_argument, internal, already_exists, not_found,
  CreateVolumeRequest, CreateVolumeResponse, ContentSource, TopologyRequirement, value,
  disk_offering_key, is_valid_volume_capabilities,
}
use cloudstack_csi_driver.Driver.Csi
use cloudstack_csi_driver.Driver.Topology.{
  to_csi, ZoneRequest, anywhere, in_zone, too_many, unparsable, no_element, zone_request,
}
use cloudstack_csi_driver.Driver.Sizes.{determine_size}
use cloudstack_csi_driver.Driver.Suitable.{
  Suitability, suitable, unsuitable, panics, check_volume_suitable,
}
use cloudstack_csi_driver.Driver.Controller.{
  Server, Handler, Try, done, failed, call, or_missing, or_internal, with_volume_lock,
}

-- `src.GetSnapshot().GetSnapshotId()`: empty where there is no source, or another one.
abbrev pub snapshot_id : Option ContentSource → String
snapshot_id none = ""
snapshot_id (some (Csi.snapshot id)) = id
snapshot_id (some (Csi.volume id)) = ""

abbrev pub is_empty {ℓ} : {A : Type ℓ} → List A → Bool
is_empty [] = true
is_empty (x ∷ xs) = false

abbrev pub response :
    CreateVolumeRequest
    → Map String
    → String
    → ℤ
    → String
    → Option ContentSource
    → CreateVolumeResponse
response req parameters id capacity zone source = record {
  volume_id = id;
  capacity_bytes = capacity;
  volume_context = parameters;
  content_source = source;
  accessible_topology = to_csi (record { zone_id = zone; host_id = "" }) ∷ [];
}

module _ (L : Sets) (C : Connector) where
  -- The branch where the volume exists.
  unfoldable pub existing_volume :
      CreateVolumeRequest → Map String → String → Volume → Handler L C CreateVolumeResponse
  existing_volume req parameters offering vol =
      elim (check_volume_suitable vol offering req.capacity_range req.accessibility_requirements) [
        | suitable ↦ pure (response req parameters vol.id vol.size vol.zone_id none)
        | unsuitable reason ↦ fail (status already_exists)
        | panics ↦ fail panic
      ]

  -- `zones[rand.Intn(n)]`: the draw is any number, taken modulo the number of zones.
  abbrev pub random_zone : ℕ → Try (List String) → Handler L C String
  random_zone draw (failed e) = fail (status invalid_argument)
  random_zone draw (done zones) =
      if length zones == 0
      then fail (status internal)
      else or_fail (get_elem? zones (draw % length zones)) panic

  unfoldable pub choose_zone : ℕ → ZoneRequest → Handler L C String
  choose_zone draw anywhere = do zones ← call C.list_zones_id; random_zone draw zones
  choose_zone draw (in_zone zone) = pure zone
  choose_zone draw too_many = fail (status invalid_argument)
  choose_zone draw unparsable = fail (status invalid_argument)
  choose_zone draw no_element = fail panic

  unfoldable pub create_from_snapshot :
      CreateVolumeRequest → Map String → String → ℤ → Handler L C CreateVolumeResponse
  create_from_snapshot req parameters id size = do
    found ← call (C.get_snapshot_by_id id)
    snapshot ← or_missing found
    let snapshot_size = round_up_bytes_to_gb snapshot.size
    let size' = if ltb_ℤ size snapshot_size then snapshot_size else size
    made ←
        call (C.create_volume_from_snapshot snapshot.zone_id req.name snapshot.project_id id size')
    vol ← or_internal made
    pure (response req parameters vol.id vol.size vol.zone_id req.volume_content_source)

  unfoldable pub create_blank :
      ℕ → CreateVolumeRequest → Map String → String → ℤ → Handler L C CreateVolumeResponse
  create_blank draw req parameters offering size = do
    zone ← choose_zone draw (zone_request req.accessibility_requirements)
    made ← call (C.create_volume offering zone req.name size)
    id ← or_internal made
    pure (response req parameters id (giga_bytes_to_bytes size) zone req.volume_content_source)

  -- The branch where no volume of that name exists.
  unfoldable pub new_volume :
      ℕ → CreateVolumeRequest → Map String → String → Handler L C CreateVolumeResponse
  new_volume draw req parameters offering = do
    size ← or_fail (determine_size req.capacity_range) (status invalid_argument)
    let id = snapshot_id req.volume_content_source
    if not (id =? "")
        then create_from_snapshot req parameters id size
        else create_blank draw req parameters offering size

  -- Under the lock on the name.
  abbrev pub provide :
      ℕ → CreateVolumeRequest → Map String → String → Try Volume → Handler L C CreateVolumeResponse
  provide draw req parameters offering (failed e) =
      if not (is_not_found e)
      then fail (status internal)
      else new_volume draw req parameters offering
  provide draw req parameters offering (done vol) = existing_volume req parameters offering vol

  unfoldable pub provision :
      ℕ → CreateVolumeRequest → Map String → String → Handler L C CreateVolumeResponse
  provision draw req parameters offering = do
    found ← call (C.get_volume_by_name req.name)
    provide draw req parameters offering found

  unfoldable pub create_volume : ℕ → CreateVolumeRequest → Handler L C CreateVolumeResponse
  create_volume draw req = do
    require (not (req.name =? "")) (status invalid_argument)
    require (not (is_empty req.volume_capabilities)) (status invalid_argument)
    require (is_valid_volume_capabilities req.volume_capabilities) (status invalid_argument)
    parameters ← or_fail req.parameters (status invalid_argument)
    let offering = value disk_offering_key parameters
    require (not (offering =? "")) (status invalid_argument)
    with_volume_lock req.name (provision draw req parameters offering)
