-- ===== src/Driver/Topology.antt =====
-- pkg/driver/topology.go.
pub mod Laws
use cloudstack_csi_driver.Prelude.{
  String, Option, none, some, List, [], ◌∷◌, not, ◌=?◌, if◌then◌else◌,
}
use cloudstack_csi_driver.Prelude.Maps.{Map, lookup, insert}
use cloudstack_csi_driver.Driver.Csi.{CsiTopology, TopologyRequirement, zone_key, host_key, value}

pub record Topology : Type 0 where
  pub zone_id : String
  pub host_id : String

-- `none` is an error.
unfoldable pub new_topology : CsiTopology → Option Topology
new_topology t = elim t.segments [
  | none ↦ none
  | some segments ↦ elim (lookup zone_key segments) [
    | none ↦ none
    | some zone ↦ some (record { zone_id = zone; host_id = value host_key segments })
  ]
]

unfoldable pub to_csi : Topology → CsiTopology
to_csi t =
    let segments = insert zone_key t.zone_id [] in
    record {
      segments =
          some (if not (t.host_id =? "") then insert host_key t.host_id segments else segments);
    }

-- What a request says about the zone.
pub data ZoneRequest : Type 0 where
  -- No topology requirement.
  anywhere : ZoneRequest
  in_zone : String → ZoneRequest
  too_many unparsable : ZoneRequest
  -- The index expression `reqTopology[0]` of an empty slice panics.
  no_element : ZoneRequest

-- The one requisite topology of a list, as `CreateVolume` and `checkVolumeSuitable` find it.
abbrev pub single_topology : List CsiTopology → ZoneRequest
single_topology [] = no_element
single_topology (t ∷ []) = elim (new_topology t) [
  | none ↦ unparsable
  | some topology ↦ in_zone topology.zone_id
]
single_topology (t ∷ u ∷ ts) = too_many

unfoldable pub zone_request : Option TopologyRequirement → ZoneRequest
zone_request none = anywhere
zone_request (some r) = elim r.requisite [ none ↦ anywhere | some ts ↦ single_topology ts ]
