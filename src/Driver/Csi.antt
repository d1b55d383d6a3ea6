-- ===== src/Driver/Csi.antt =====
-- The CSI messages that the driver reads and answers with, the gRPC codes that it answers with,
-- and pkg/driver/constants.go. A pointer or a oneof that may be nil is an Option.
use cloudstack_csi_driver.Prelude.{
  ℕ, String, Bool, true, false, Option, none, some, List, [], ◌∷◌, if◌then◌else◌, not,
}
use cloudstack_csi_driver.Prelude.Int.{ℤ}
use cloudstack_csi_driver.Prelude.Maps.{Map, lookup}

abbrev pub driver_name : String
driver_name = "csi.cloudstack.apache.org"

abbrev pub zone_key : String
zone_key = "topology.csi.cloudstack.apache.org/zone"

abbrev pub host_key : String
host_key = "topology.csi.cloudstack.apache.org/host"

abbrev pub disk_offering_key : String
disk_offering_key = "csi.cloudstack.apache.org/disk-offering-id"

abbrev pub device_id_context_key : String
device_id_context_key = "deviceID"

pub data Code : Type 0 where
  invalid_argument aborted internal already_exists not_found out_of_range : Code

-- How a handler fails: with a gRPC status (the message is not modelled), or by a run-time panic.
pub data Failure : Type 0 where
  status : Code → Failure
  panic : Failure

pub data AccessMode : Type 0 where
  unknown single_node_writer : AccessMode
  other_mode : ℕ → AccessMode

-- The oneof of a volume capability: a block device, or a file system with its type and flags.
pub data AccessType : Type 0 where
  no_access_type block : AccessType
  mount : String → List String → AccessType

pub record VolumeCapability : Type 0 where
  pub access_mode : Option AccessMode
  pub access_type : AccessType

pub record CapacityRange : Type 0 where
  pub required_bytes : ℤ
  pub limit_bytes : ℤ

pub record CsiTopology : Type 0 where
  pub segments : Option (Map String)

pub record TopologyRequirement : Type 0 where
  pub requisite : Option (List CsiTopology)

pub data ContentSource : Type 0 where
  snapshot : String → ContentSource
  volume : String → ContentSource

pub record CreateVolumeRequest : Type 0 where
  pub name : String
  pub capacity_range : Option CapacityRange
  pub volume_capabilities : List VolumeCapability
  pub parameters : Option (Map String)
  pub volume_content_source : Option ContentSource
  pub accessibility_requirements : Option TopologyRequirement

pub record CreateVolumeResponse : Type 0 where
  pub volume_id : String
  pub capacity_bytes : ℤ
  pub volume_context : Map String
  pub content_source : Option ContentSource
  pub accessible_topology : List CsiTopology

-- `m[key]` of a map of strings: the empty string for a missing key.
abbrev pub value : String → Map String → String
value key m = elim (lookup key m) [ none ↦ "" | some v ↦ v ]

-- `GetMode() == SINGLE_NODE_WRITER`
abbrev pub is_single_node_writer : AccessMode → Bool
is_single_node_writer unknown = false
is_single_node_writer single_node_writer = true
is_single_node_writer (other_mode n) = false

-- The test of one capability in `isValidVolumeCapabilities`.
abbrev pub is_valid_mode : Option AccessMode → Bool
is_valid_mode none = true
is_valid_mode (some m) = is_single_node_writer m

unfoldable pub is_valid_volume_capabilities : List VolumeCapability → Bool
is_valid_volume_capabilities [] = true
is_valid_volume_capabilities (c ∷ cs) =
    if not (is_valid_mode c.access_mode) then false else is_valid_volume_capabilities cs
