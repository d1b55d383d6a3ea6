-- ===== src/Driver/Suitable/Laws.antt =====
-- What it means that an existing volume suits a request.
use cloudstack_csi_driver.Prelude.{String, Option, none, some, ◌≡◌, refl, ◌↔◌, ◌⊎◌, arith}
use cloudstack_csi_driver.Prelude.Int.{ℤ, pos, ◌≤ℤ◌}
use cloudstack_csi_driver.Cloud.{Volume}
use cloudstack_csi_driver.Driver.Csi.{CapacityRange, TopologyRequirement}
use cloudstack_csi_driver.Driver.Topology.{anywhere, in_zone, zone_request}
use cloudstack_csi_driver.Driver.Suitable.{
  check_capacity, check_volume_suitable, check_zone, suitable,
}

-- The limits of the range that are given, that is positive, hold of the size.
abbrev pub InRange : ℤ → Option CapacityRange → Type 0
InRange size none = Unit
InRange size (some range) =
    ((range.limit_bytes ≤ℤ pos 0) ⊎ (size ≤ℤ range.limit_bytes))
    × ((range.required_bytes ≤ℤ pos 0) ⊎ (range.required_bytes ≤ℤ size))

abbrev pub InZone : String → Option TopologyRequirement → Type 0
InZone zone requirement =
    (zone_request requirement ≡ anywhere) ⊎ (zone_request requirement ≡ in_zone zone)

pub record Suits (vol : Volume) (disk_offering_id : String) (range : Option CapacityRange)
    (requirement : Option TopologyRequirement) : Type 0 where
  pub offering : vol.disk_offering_id ≡ disk_offering_id
  pub in_range : InRange vol.size range
  pub in_zone : InZone vol.zone_id requirement

check_capacity_iff :
    (size : ℤ) (range : Option CapacityRange)
    → (check_capacity size range ≡ none) ↔ InRange size range
check_capacity_iff size none = (λ _. tt, λ _. refl)
check_capacity_iff size (some range) = (λ h. ground arith, λ h. ground arith)

check_zone_iff :
    (zone : String) (requirement : Option TopologyRequirement)
    → (check_zone zone (zone_request requirement) ≡ suitable) ↔ InZone zone requirement
check_zone_iff zone requirement = (λ h. ground arith, λ h. ground arith)

-- The check accepts a volume exactly if it has the requested disk offering, lies within the limits
-- that the capacity range gives, and is in the required zone where one is required.
pub check_volume_suitable_iff :
    (vol : Volume) (offering : String) (range : Option CapacityRange)
    (requirement : Option TopologyRequirement)
    → (check_volume_suitable vol offering range requirement ≡ suitable)
      ↔ Suits vol offering range requirement
unfolding check_volume_suitable
check_volume_suitable_iff vol offering range requirement = (
  λ h. ground (arith, check_capacity_iff vol.size range, check_zone_iff vol.zone_id requirement),
  λ s. ground (arith, check_capacity_iff vol.size range, check_zone_iff vol.zone_id requirement),
)
