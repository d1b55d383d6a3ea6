-- ===== src/Driver/Suitable.antt =====
-- `checkVolumeSuitable` of pkg/driver/controller.go.
pub mod Laws
use cloudstack_csi_driver.Prelude.{Bool, String, Option, none, some, ◌&&◌, not, ◌=?◌, if◌then◌else◌}
use cloudstack_csi_driver.Prelude.Int.{ℤ, pos, ltb_ℤ}
use cloudstack_csi_driver.Cloud.{Volume}
use cloudstack_csi_driver.Driver.Csi.{CapacityRange, TopologyRequirement}
use cloudstack_csi_driver.Driver.Topology.{
  ZoneRequest, anywhere, in_zone, too_many, unparsable, no_element, zone_request,
}

-- Why a volume does not suit, in place of the message.
pub data Reason : Type 0 where
  other_offering above_limit below_required many_topologies bad_topology other_zone : Reason

pub data Suitability : Type 0 where
  suitable : Suitability
  unsuitable : Reason → Suitability
  -- The index expression `reqTopology[0]` of an empty slice panics.
  panics : Suitability

abbrev pub check_zone : String → ZoneRequest → Suitability
check_zone zone anywhere = suitable
check_zone zone (in_zone z) = if not (z =? zone) then unsuitable other_zone else suitable
check_zone zone too_many = unsuitable many_topologies
check_zone zone unparsable = unsuitable bad_topology
check_zone zone no_element = panics

abbrev pub check_capacity : ℤ → Option CapacityRange → Option Reason
check_capacity size none = none
check_capacity size (some range) =
    if ltb_ℤ (pos 0) range.limit_bytes && ltb_ℤ range.limit_bytes size
    then some above_limit
    else if ltb_ℤ (pos 0) range.required_bytes && ltb_ℤ size range.required_bytes
    then some below_required
    else none

unfoldable pub check_volume_suitable :
    Volume → String → Option CapacityRange → Option TopologyRequirement → Suitability
unfolding zone_request
check_volume_suitable vol disk_offering_id range requirement =
    if not (vol.disk_offering_id =? disk_offering_id)
    then unsuitable other_offering
    else elim (check_capacity vol.size range) [
      | some reason ↦ unsuitable reason
      | none ↦ check_zone vol.zone_id (zone_request requirement)
    ]
