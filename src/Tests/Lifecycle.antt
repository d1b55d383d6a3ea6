-- ===== src/Tests/Lifecycle.antt =====
-- Runs of the theorems on the life of a volume.
use cloudstack_csi_driver.Prelude.{String, ◌≡◌, refl, ◌∷◌, [], string_dec}
use cloudstack_csi_driver.Prelude.Maps.{lookup}
use cloudstack_csi_driver.Prelude.Prog.{ok, final}
use cloudstack_csi_driver.Prelude.Strconv.{itoa}
use cloudstack_csi_driver.Util.OperationLock.{held, new_operation_lock}
use cloudstack_csi_driver.Cloud.Fake.{new}
use cloudstack_csi_driver.Driver.Csi.{disk_offering_key}
use cloudstack_csi_driver.Driver.Controller.{Server, new_controller_server}
use cloudstack_csi_driver.Driver.Controller.Create.{create_volume}
use cloudstack_csi_driver.Driver.Controller.Create.Lifecycle.{IsFresh, volume_lifecycle}
use cloudstack_csi_driver.Driver.Controller.Volumes.{delete_volume}
use cloudstack_csi_driver.Tests.{sets, cloud, supply}
use cloudstack_csi_driver.Tests.Controller.{request, made, s₀, created_once}

abbrev s₁ : Server sets cloud
s₁ = final (create_volume sets cloud 0 request s₀)

fresh : IsFresh sets supply "id-0" s₀
unfolding string_dec new_controller_server new lookup held new_operation_lock
fresh = record {
  not_empty = refl;
  unknown = refl;
  unlocked = refl;
  not_expanded = refl;
  not_restored = refl;
}

volume_lifecycle_example :
    (t' : Server sets cloud) × (delete_volume sets cloud made.volume_id s₁ ≡ ok tt t')
    × ((k : String)
        → (lookup k t'.cloud.volumes_by_id ≡ lookup k s₀.cloud.volumes_by_id)
          × (lookup k t'.cloud.volumes_by_name ≡ lookup k s₀.cloud.volumes_by_name))
unfolding string_dec new_controller_server new lookup itoa
volume_lifecycle_example =
    volume_lifecycle sets supply 0 request ((disk_offering_key, "gold") ∷ []) s₀ s₁ made refl refl
      refl fresh created_once
