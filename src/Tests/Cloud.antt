-- ===== src/Tests/Cloud.antt =====
-- Runs of the theorems on the fake connector and on the client.
use text.Mathlib.TextLemmas.{append_cancel_left}
use cloudstack_csi_driver.Cloud.Fake.Reachable.{IsSupply}
use cloudstack_csi_driver.Prelude.{codes, sym, ap, ◌∙◌, List}
use cloudstack_csi_driver.Prelude.Strconv.{itoa_inj, codes-append, itoa}
use cloudstack_csi_driver.Cloud.Fake.Reach.{
  Operation, create, copy, expand, delete, apply_all, apply_all-Agrees,
}
use cloudstack_csi_driver.Prelude.Strings.{starts_with, split_after, split, lines, lowers_to}
use cloudstack_csi_driver.Cloud.Metadata.{
  from_cloud_init, from_ignition, read_cloud_init, read_ignition, scan,
}
use cloudstack_csi_driver.Prelude.{
  ◌≡◌, ◌≢◌, [], ◌∷◌, refl, arith, string_dec, true, some, ◌↔◌, String,
}
use cloudstack_csi_driver.Prelude.Int.{pos}
use cloudstack_csi_driver.Prelude.Strconv.{itoa}
use cloudstack_csi_driver.Prelude.Prog.{ok}
use cloudstack_csi_driver.Cloud.{Snapshot}
use cloudstack_csi_driver.Cloud.Fake.{new, first_volume}
use cloudstack_csi_driver.Cloud.Fake.Laws.{Agrees}
use cloudstack_csi_driver.Cloud.Metadata.{
  Machine, metadata_instance_id, from_cloud_init, from_ignition, read_cloud_init, read_ignition,
  scan,
}
use cloudstack_csi_driver.Cloud.Metadata.Laws.{Finds, metadata_instance_id_iff}
use cloudstack_csi_driver.Cloud.Client.Sdk.{Api, ApiSnapshot, ApiVolume}
use cloudstack_csi_driver.Cloud.Client
use cloudstack_csi_driver.Tests.{supply}

pub supply-IsSupply : IsSupply supply
supply-IsSupply = record {
  distinct = λ m n ne e. ne (itoa_inj m n (append_cancel_left "id-" (itoa m) (itoa n) e));
  no_first = λ n e.
      ground (arith, ap (starts_with (b'i' ∷ [])) (sym (codes-append "id-" (itoa n)) ∙ ap codes e));
  no_copy = λ n name e. ground (
    arith,
    ap (starts_with (b'i' ∷ [])) (
        sym (codes-append "id-" (itoa n)) ∙ (ap codes e ∙ codes-append "fake-vol-from-snap-" name)),
  );
}

abbrev operations : List Operation
operations =
    create "gold" "zone" "pvc-1" (pos 2)
    ∷ copy "zone" "pvc-2" "" "snap" (pos 3)
    ∷ expand "id-0" (pos 3)
    ∷ delete first_volume.id
    ∷ []

apply_all-Agrees_example : Agrees (apply_all supply operations new)
apply_all-Agrees_example = apply_all-Agrees supply operations supply-IsSupply

abbrev api_volume : ApiVolume
api_volume = record {
  id = "v";
  name = "pvc-1";
  size = pos 1073741824;
  disk_offering_id = "gold";
  domain_id = "";
  project_id = "";
  zone_id = "zone";
  virtual_machine_id = "";
  device_id = pos 0;
  state = "Ready";
}

abbrev api_snapshot : ApiSnapshot
api_snapshot = record {
  id = "s";
  name = "snap";
  virtual_size = pos 1073741824;
  domain_id = "";
  project_id = "";
  zone_id = "zone";
  volume_id = "v";
  created = "2025-07-07T16:13:06-0700";
}

-- A machine with the files of cloud-init, of another cloud, and of Ignition.
abbrev machine : Machine
machine = record {
  node_id = "";
  stat = λ path. true;
  read_file = λ path. some "{}";
  open_file = λ path. some "COREOS_CLOUDSTACK_INSTANCE_ID=vm-1";
  unmarshal = λ text. some (record { cloud_name = "openstack"; instance_id = "other"; zone = "" });
}

abbrev vm_id : String
vm_id = "vm-1"

metadata_instance_id_iff_example :
    ((metadata_instance_id machine ≡ vm_id) × (vm_id ≢ "")) ↔ Finds machine vm_id
metadata_instance_id_iff_example = metadata_instance_id_iff machine vm_id

-- An API that always answers with one volume and one snapshot.
abbrev api : Api
api = record {
  State = Unit {0};
  list_volumes = λ p s. ok (record { count = 1; items = api_volume ∷ [] }) s;
  create_volume = λ p s. ok api_volume s;
  delete_volume = λ id s. ok tt s;
  attach_volume = λ id vm s. ok (pos 1) s;
  detach_volume = λ id s. ok tt s;
  get_volume_by_id = λ id s. ok api_volume s;
  resize_volume = λ id size s. ok tt s;
  list_snapshots = λ p s. ok (record { count = 1; items = api_snapshot ∷ [] }) s;
  create_snapshot = λ id name s. ok api_snapshot s;
  delete_snapshot = λ id s. ok tt s;
  list_vms = λ p s. ok (record { count = 0; items = [] }) s;
  list_available_zones = λ s. ok ("zone" ∷ []) s;
  machine = machine;
}

abbrev found_snapshot : Snapshot
found_snapshot = Client.snapshot_of api_snapshot (pos 0) ""

found : Client.get_snapshot_by_id api "project" "s" tt ≡ ok found_snapshot tt
unfolding Client.get_snapshot_by_id Client.single
found = refl

found_on_machine : metadata_instance_id machine ≡ "vm-1"
unfolding metadata_instance_id from_cloud_init from_ignition read_cloud_init read_ignition scan
    split_after split lines lowers_to string_dec
found_on_machine = refl
