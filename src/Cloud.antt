-- ===== src/Cloud.antt =====
-- pkg/cloud/cloud.go: the data of the CloudStack connector, its errors, and its interface.
pub mod Fake
pub mod Client
pub mod Metadata
pub mod Config
use cloudstack_csi_driver.Prelude.{String, ◌<>◌, Bool, true, false, List}
use cloudstack_csi_driver.Prelude.Int.{ℤ}
use cloudstack_csi_driver.Prelude.Prog.{Prog}

pub record Volume : Type 0 where
  pub id : String
  pub name : String
  pub size : ℤ
  pub disk_offering_id : String
  pub domain_id : String
  pub project_id : String
  pub zone_id : String
  pub virtual_machine_id : String
  pub device_id : String

pub record Snapshot : Type 0 where
  pub id : String
  pub name : String
  pub size : ℤ
  pub domain_id : String
  pub project_id : String
  pub zone_id : String
  pub volume_id : String
  pub created_at : String

pub record Vm : Type 0 where
  pub id : String
  pub zone_id : String

-- Go errors: the three of the package, those made from a text, and those wrapped by `%w`.
pub data Err : Type 0 where
  not_found too_many_results already_exists : Err
  other : String → Err
  wrap : String → Err → Err

-- `errors.Is(err, ErrNotFound)`
unfoldable pub is_not_found : Err → Bool
is_not_found not_found = true
is_not_found too_many_results = false
is_not_found already_exists = false
is_not_found (other text) = false
is_not_found (wrap text e) = is_not_found e

-- `errors.Is(err, ErrAlreadyExists)`
unfoldable pub is_already_exists : Err → Bool
is_already_exists not_found = false
is_already_exists too_many_results = false
is_already_exists already_exists = true
is_already_exists (other text) = false
is_already_exists (wrap text e) = is_already_exists e

-- `err.Error()`
unfoldable pub error_text : Err → String
error_text not_found = "not found"
error_text too_many_results = "too many results"
error_text already_exists = "already exists"
error_text (other text) = text
error_text (wrap text e) = text <> error_text e

-- The interface that the driver calls. A call may change the state of CloudStack, also where it
-- fails.
pub record Connector : Type 1 where
  pub State : Type 0
  pub get_node_info : String → Prog Err State Vm
  pub get_vm_by_id : String → Prog Err State Vm
  pub list_zones_id : Prog Err State (List String)
  pub get_volume_by_id : String → Prog Err State Volume
  pub get_volume_by_name : String → Prog Err State Volume
  -- disk offering, zone, name, size in GB
  pub create_volume : String → String → String → ℤ → Prog Err State String
  pub delete_volume : String → Prog Err State (Unit {0})
  -- volume, virtual machine
  pub attach_volume : String → String → Prog Err State String
  pub detach_volume : String → Prog Err State (Unit {0})
  pub expand_volume : String → ℤ → Prog Err State (Unit {0})
  -- zone, name, project, snapshot, size in GB
  pub create_volume_from_snapshot : String → String → String → String → ℤ → Prog Err State Volume
  pub get_snapshot_by_id : String → Prog Err State Snapshot
  pub get_snapshot_by_name : String → Prog Err State Snapshot
  -- volume, name
  pub create_snapshot : String → String → Prog Err State Snapshot
  pub delete_snapshot : String → Prog Err State (Unit {0})
  -- volume, snapshot
  pub list_snapshots : String → String → Prog Err State (List Snapshot)
