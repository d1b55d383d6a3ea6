-- ===== src/Tests/Publish.antt =====
-- Runs of the theorems on the publication of volumes by the controller.
use cloudstack_csi_driver.Prelude.{◌≡◌, false, refl, string_dec}
use cloudstack_csi_driver.Prelude.Maps.{lookup}
use cloudstack_csi_driver.Prelude.Prog.{ok}
use cloudstack_csi_driver.Cloud.{is_not_found}
use cloudstack_csi_driver.Cloud.Fake.{get_volume_by_id, get_vm_by_id}
use cloudstack_csi_driver.Driver.Controller.{Server, new_controller_server}
use cloudstack_csi_driver.Driver.Controller.Publish.{controller_unpublish_volume}
use cloudstack_csi_driver.Driver.Controller.Publish.Unpublish.{Unpublished, unpublish_iff}
use cloudstack_csi_driver.Prelude.{◌=?◌, ◌↔◌}
use cloudstack_csi_driver.Tests.{sets, cloud, server, attached, attached_cloud}

abbrev s₁ : Server sets cloud
s₁ = server attached_cloud

unpublish_iff_example : (controller_unpublish_volume sets cloud attached.id "" s₁ ≡ ok tt s₁) ↔ (
    ((attached.id =? "") ≡ false) × Unpublished cloud attached.id "" attached_cloud attached_cloud)
unfolding new_controller_server
unpublish_iff_example = unpublish_iff sets cloud attached.id "" s₁ attached_cloud

-- No node is named, no machine has the empty name, and the volume stays attached.
unpublishes_nothing : controller_unpublish_volume sets cloud attached.id "" s₁ ≡ ok tt s₁
unfolding new_controller_server get_volume_by_id get_vm_by_id lookup string_dec is_not_found
    controller_unpublish_volume
unpublishes_nothing = refl
