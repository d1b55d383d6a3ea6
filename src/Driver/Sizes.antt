-- ===== src/Driver/Sizes.antt =====
-- `determineSize` of pkg/driver/controller.go.
pub mod Laws
use cloudstack_csi_driver.Prelude.{Bool, Option, none, some, ◌&&◌, if◌then◌else◌}
use cloudstack_csi_driver.Prelude.Int.{ℤ, pos, ltb_ℤ, eqb_ℤ}
use cloudstack_csi_driver.Util.Gb.{round_up_bytes_to_gb, giga_bytes_to_bytes}
use cloudstack_csi_driver.Driver.Csi.{CapacityRange}

abbrev pub at_least_one : ℤ → ℤ
at_least_one g = if eqb_ℤ g (pos 0) then pos 1 else g

-- The size in GB of the capacity range of a request; `none` is an error.
unfoldable pub determine_size : Option CapacityRange → Option ℤ
determine_size none = some (at_least_one (pos 0))
determine_size (some range) =
    let size_in_gb = at_least_one (round_up_bytes_to_gb range.required_bytes) in
    let limit = range.limit_bytes in
    if ltb_ℤ (pos 0) limit && ltb_ℤ limit (giga_bytes_to_bytes size_in_gb)
    then none
    else some (at_least_one size_in_gb)
