-- ===== src/Cloud/Client/Sdk.antt =====
-- The part of the CloudStack SDK that pkg/cloud calls.
use cloudstack_csi_driver.Cloud.Metadata.{Machine}
use cloudstack_csi_driver.Prelude.{ℕ, String, Option, List}
use cloudstack_csi_driver.Prelude.Int.{ℤ}
use cloudstack_csi_driver.Prelude.Prog.{Prog}
use cloudstack_csi_driver.Cloud.{Err}

-- The types of the SDK, by the fields that the client reads.
pub record ApiVolume : Type 0 where
  pub id : String
  pub name : String
  pub size : ℤ
  pub disk_offering_id : String
  pub domain_id : String
  pub project_id : String
  pub zone_id : String
  pub virtual_machine_id : String
  pub device_id : ℤ
  pub state : String

pub record ApiSnapshot : Type 0 where
  pub id : String
  pub name : String
  pub virtual_size : ℤ
  pub domain_id : String
  pub project_id : String
  pub zone_id : String
  pub volume_id : String
  pub created : String

pub record ApiVm : Type 0 where
  pub id : String
  pub zone_id : String

-- A list call answers with a number, and a list.
pub record Listing (A : Type 0) : Type 0 where
  pub count : ℕ
  pub items : List A

-- The parameters of the calls: `none` where the client does not set one.
pub record ListVolumesParams : Type 0 where
  pub id : Option String
  pub name : Option String
  pub project_id : Option String

pub record CreateVolumeParams : Type 0 where
  pub disk_offering_id : Option String
  pub zone_id : Option String
  pub name : Option String
  pub size : Option ℤ
  pub project_id : Option String
  pub snapshot_id : Option String

pub record ListSnapshotsParams : Type 0 where
  pub id : Option String
  pub name : Option String
  pub volume_id : Option String
  pub project_id : Option String

pub record ListVmsParams : Type 0 where
  pub id : Option String
  pub name : Option String
  pub project_id : Option String

-- The API of CloudStack, which is not part of the repository. `machine` is what
-- `metadataInstanceID` reads.
pub record Api : Type 1 where
  pub State : Type 0
  pub list_volumes : ListVolumesParams → Prog Err State (Listing ApiVolume)
  pub create_volume : CreateVolumeParams → Prog Err State ApiVolume
  pub delete_volume : String → Prog Err State (Unit {0})
  pub attach_volume : String → String → Prog Err State ℤ
  pub detach_volume : String → Prog Err State (Unit {0})
  pub get_volume_by_id : String → Prog Err State ApiVolume
  pub resize_volume : String → ℤ → Prog Err State (Unit {0})
  pub list_snapshots : ListSnapshotsParams → Prog Err State (Listing ApiSnapshot)
  -- volume, name
  pub create_snapshot : String → Option String → Prog Err State ApiSnapshot
  pub delete_snapshot : String → Prog Err State (Unit {0})
  pub list_vms : ListVmsParams → Prog Err State (Listing ApiVm)
  pub list_available_zones : Prog Err State (List String)
  pub machine : Machine
