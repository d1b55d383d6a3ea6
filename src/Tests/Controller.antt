-- ===== src/Tests/Controller.antt =====
-- Runs of the theorems on the volumes of the controller service.
use cloudstack_csi_driver.Prelude.{
  ◌≢◌, ℕ, ◌-◌, ◌^◌, ◌≤◌, ◌≡◌, ◌⊎◌, ◌↔◌, none, some, [], ◌∷◌, refl, arith, string_dec,
}
use cloudstack_csi_driver.Prelude.Int.{pos}
use cloudstack_csi_driver.Prelude.Maps.{lookup}
use cloudstack_csi_driver.Prelude.Prog.{err, ok, final}
use cloudstack_csi_driver.Prelude.Strconv.{itoa}
use cloudstack_csi_driver.Cloud.{not_found, is_not_found}
use cloudstack_csi_driver.Cloud.Fake.{
  FakeConnector, new, first_volume, fake_node, get_volume_by_id, get_vm_by_id,
}
use cloudstack_csi_driver.Driver.Controller.{with_volume_lock, Server, new_controller_server}
use cloudstack_csi_driver.Driver.Controller.Create.{
  provision, new_volume, create_blank, choose_zone, response, create_volume,
}
use cloudstack_csi_driver.Driver.Controller.Create.Anywhere.{create_volume_anywhere}
use cloudstack_csi_driver.Driver.Controller.Create.Laws.{Answers, Meets, create_volume-Meets}
use cloudstack_csi_driver.Driver.Controller.Create.Panics.{create_volume_no_panic}
use cloudstack_csi_driver.Driver.Controller.Create.Twice.{create_volume_twice}
use cloudstack_csi_driver.Driver.Controller.Locks.{create_volume-locks}
use cloudstack_csi_driver.Driver.Controller.OperationLocks.{
  delete_volume-locks, controller_expand_volume-locks,
}
use cloudstack_csi_driver.Driver.Controller.Volumes.{
  delete_volume, controller_expand_volume, ControllerExpandVolumeRequest,
}
use cloudstack_csi_driver.Driver.Controller.Volumes.Laws.{Expands, controller_expand_volume-Expands}
use cloudstack_csi_driver.Driver.Csi.{
  snapshot, panic, is_valid_volume_capabilities, CreateVolumeResponse, CreateVolumeRequest,
  CapacityRange, disk_offering_key, zone_key,
}
use cloudstack_csi_driver.Driver.Sizes.{determine_size}
use cloudstack_csi_driver.Driver.Sizes.Laws.{Fits, determine_size_least, determine_size_overflow}
use cloudstack_csi_driver.Driver.Suitable.{check_volume_suitable, suitable}
use cloudstack_csi_driver.Driver.Suitable.Laws.{Suits, check_volume_suitable_iff}
use cloudstack_csi_driver.Driver.Topology.{zone_request, new_topology, to_csi}
use cloudstack_csi_driver.Driver.Topology.Laws.{new_topology-to_csi}
use cloudstack_csi_driver.Tests.{differs, sets, cloud, server, capability, supply}
use cloudstack_csi_driver.Util.Gb.{giga_bytes_to_bytes, round_up_bytes_to_gb}
use cloudstack_csi_driver.Util.OperationLock.{new_operation_lock}
use cloudstack_csi_driver.Util.OperationLock.Counters.{no_operation, Represents, Within}
use cloudstack_csi_driver.Util.OperationLock.Exclusion.{run-Represents, run, run_counts}
use cloudstack_csi_driver.Util.VolumeLocks.{try_acquire}
use cloudstack_csi_driver.Cloud.Fake

abbrev range : CapacityRange
range = record { required_bytes = pos 1500000000; limit_bytes = pos 3000000000 }

abbrev pub request : CreateVolumeRequest
request = record {
  name = "pvc-1";
  capacity_range = some range;
  volume_capabilities = capability ∷ [];
  parameters = some ((disk_offering_key, "gold") ∷ []);
  volume_content_source = none;
  accessibility_requirements =
      some
        (record { requisite = some (record { segments = some ((zone_key, "zone-1") ∷ []) } ∷ []) });
}

abbrev pub s₀ : Server sets cloud
s₀ = server new

create_volume-Meets_example :
    Answers
      (Meets cloud request ((disk_offering_key, "gold") ∷ []))
      (create_volume sets cloud 0 request s₀)
create_volume-Meets_example =
    create_volume-Meets sets cloud 0 request ((disk_offering_key, "gold") ∷ []) s₀ refl refl
      (1500000000, refl, omega arith)

abbrev pub made : CreateVolumeResponse
made = response request ((disk_offering_key, "gold") ∷ []) "id-0" (pos 2147483648) "zone-1" none

pub created_once :
    create_volume sets cloud 0 request s₀ ≡ ok made (final (create_volume sets cloud 0 request s₀))
unfolding create_volume provision new_volume create_blank choose_zone new_controller_server
    string_dec is_valid_volume_capabilities lookup with_volume_lock try_acquire
    Fake.get_volume_by_name new is_not_found determine_size giga_bytes_to_bytes round_up_bytes_to_gb
    zone_request new_topology Fake.create_volume itoa
created_once = refl

create_volume_twice_example :
    (resp' : CreateVolumeResponse) × (t' : Server sets cloud) × (create_volume sets cloud 7 request
        (final (create_volume sets cloud 0 request s₀))
      ≡ ok resp' t')
    × (resp'.volume_id ≡ made.volume_id)
    × (resp'.capacity_bytes ≡ made.capacity_bytes)
    × (t'.cloud ≡ (final (create_volume sets cloud 0 request s₀)).cloud)
create_volume_twice_example =
    create_volume_twice sets supply 0 7 request ((disk_offering_key, "gold") ∷ []) s₀
      (final (create_volume sets cloud 0 request s₀)) made refl refl (1500000000, refl, omega arith)
      created_once

create_volume_no_panic_example : create_volume sets cloud 0 request s₀ ≢ err panic s₀
unfolding zone_request new_topology lookup string_dec
create_volume_no_panic_example = create_volume_no_panic sets cloud 0 request s₀ s₀ (λ e. cc)

abbrev from_snapshot : CreateVolumeRequest
from_snapshot = record request { volume_content_source = some (snapshot "s") }

not_there : cloud.get_volume_by_name "pvc-1" new ≡ err not_found new
unfolding Fake.get_volume_by_name new lookup string_dec
not_there = refl

create_volume_anywhere_example :
    create_volume sets cloud 0 from_snapshot s₀
    ≡ create_volume sets cloud 0 (record from_snapshot { accessibility_requirements = none }) s₀
unfolding string_dec is_not_found new_controller_server
create_volume_anywhere_example =
    create_volume_anywhere sets cloud 0 from_snapshot none s₀ new not_found (differs "s" "" refl)
      not_there refl

create_volume-locks_example :
    (sets.has (final (create_volume sets cloud 0 request s₀)).volume_locks "pvc-1"
      ≡ sets.has s₀.volume_locks "pvc-1")
    × ((final (create_volume sets cloud 0 request s₀)).operation_locks ≡ s₀.operation_locks)
create_volume-locks_example = create_volume-locks sets cloud 0 request s₀ "pvc-1"

idle : Represents new_operation_lock first_volume.id no_operation
unfolding run run_counts
idle = run-Represents first_volume.id [] (omega arith)

idle-Within : Within 0 no_operation
idle-Within = omega arith

delete_volume-locks_example :
    (sets.has (final (delete_volume sets cloud first_volume.id s₀)).volume_locks first_volume.id
      ≡ sets.has s₀.volume_locks first_volume.id)
    × Represents
        (final (delete_volume sets cloud first_volume.id s₀)).operation_locks
        first_volume.id
        no_operation
unfolding new_controller_server
delete_volume-locks_example =
    delete_volume-locks sets cloud first_volume.id first_volume.id s₀ no_operation 0 (omega arith)
      idle-Within idle refl

abbrev pub expand_request : ControllerExpandVolumeRequest
expand_request = record {
  volume_id = first_volume.id;
  capacity_range = some range;
  volume_capability = some capability;
}

controller_expand_volume-locks_example :
    (sets.has
        (final (controller_expand_volume sets cloud expand_request s₀)).volume_locks
        first_volume.id
      ≡ sets.has s₀.volume_locks first_volume.id)
    × Represents
        (final (controller_expand_volume sets cloud expand_request s₀)).operation_locks
        first_volume.id
        no_operation
unfolding new_controller_server
controller_expand_volume-locks_example =
    controller_expand_volume-locks sets cloud expand_request first_volume.id s₀ no_operation 0
      (omega arith) idle-Within idle refl

check_volume_suitable_iff_example :
    (check_volume_suitable first_volume "gold" (some range) none ≡ suitable)
    ↔ Suits first_volume "gold" (some range) none
check_volume_suitable_iff_example = check_volume_suitable_iff first_volume "gold" (some range) none

determine_size_least_example :
    ((g : ℕ) × (determine_size (some range) ≡ some (pos g))
      × Fits 1500000000 (pos 3000000000) g
      × ((h : ℕ) → Fits 1500000000 (pos 3000000000) h → g ≤ h))
    ⊎ ((determine_size (some range) ≡ none) × ((h : ℕ) → ¬ Fits 1500000000 (pos 3000000000) h))
determine_size_least_example = determine_size_least range 1500000000 refl (omega arith)

abbrev huge : CapacityRange
huge = record { required_bytes = pos (2 ^ 63 - 2000); limit_bytes = pos 1 }

determine_size_overflow_example : determine_size (some huge) ≡ some (pos (2 ^ 33))
determine_size_overflow_example =
    determine_size_overflow huge (2 ^ 63 - 2000) refl (omega arith) (omega arith)

new_topology-to_csi_example :
    new_topology (to_csi (record { zone_id = "z"; host_id = "h" }))
    ≡ some (record { zone_id = "z"; host_id = "h" })
new_topology-to_csi_example = new_topology-to_csi (record { zone_id = "z"; host_id = "h" })

controller_expand_volume-Expands_example :
    Answers (Expands expand_request) (controller_expand_volume sets cloud expand_request s₀)
controller_expand_volume-Expands_example =
    controller_expand_volume-Expands sets cloud expand_request s₀ (1500000000, refl, omega arith)
