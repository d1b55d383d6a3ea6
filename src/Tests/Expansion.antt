-- ===== src/Tests/Expansion.antt =====
-- A run of the theorem on the expansion of a volume of the fake connector.
use cloudstack_csi_driver.Prelude.{◌≡◌, refl, string_dec, true}
use cloudstack_csi_driver.Prelude.Int.{pos}
use cloudstack_csi_driver.Prelude.Maps.{lookup, insert, erase}
use cloudstack_csi_driver.Prelude.Prog.{ok, final}
use cloudstack_csi_driver.Util.Gb.{giga_bytes_to_bytes, round_up_bytes_to_gb}
use cloudstack_csi_driver.Util.VolumeLocks
use cloudstack_csi_driver.Util.OperationLock.{
  held, new_operation_lock, try_acquire, get_expand_lock, release_expand_lock, release,
}
use cloudstack_csi_driver.Cloud.Fake.{new, get_volume_by_id, expand_volume}
use cloudstack_csi_driver.Driver.Controller.{
  Server, new_controller_server, with_volume_lock, with_operation_lock,
}
use cloudstack_csi_driver.Driver.Controller.Volumes.{
  ControllerExpandVolumeResponse, controller_expand_volume, expand_locked, expand_call,
}
use cloudstack_csi_driver.Driver.Controller.Volumes.Grown.{Grown, controller_expand_volume-Grown}
use cloudstack_csi_driver.Tests.{sets, cloud, supply}
use cloudstack_csi_driver.Tests.Controller.{expand_request, s₀}

abbrev answer : ControllerExpandVolumeResponse
answer = record { capacity_bytes = pos 2147483648; node_expansion_required = true }

abbrev grown : Server sets cloud
grown = final (controller_expand_volume sets cloud expand_request s₀)

expands : controller_expand_volume sets cloud expand_request s₀ ≡ ok answer grown
unfolding controller_expand_volume expand_locked expand_call get_volume_by_id expand_volume
    with_volume_lock with_operation_lock VolumeLocks.try_acquire VolumeLocks.release try_acquire
    get_expand_lock release_expand_lock release held new_operation_lock new new_controller_server
    string_dec lookup insert erase giga_bytes_to_bytes round_up_bytes_to_gb
expands = refl

controller_expand_volume-Grown_example :
    Grown expand_request.volume_id (pos 2147483648) s₀.cloud grown.cloud
controller_expand_volume-Grown_example =
    controller_expand_volume-Grown sets supply expand_request s₀ grown answer expands
