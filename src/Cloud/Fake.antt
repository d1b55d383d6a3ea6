-- ===== src/Cloud/Fake.antt =====
-- pkg/cloud/fake/fake.go: the connector over maps that the sanity tests run the driver on.
pub mod Laws
pub mod Reachable
pub mod Reach
use cloudstack_csi_driver.Prelude.{
  ℕ, suc, Bool, true, false, not, String, ◌<>◌, Option, none, some, List, [], ◌∷◌, ◌++◌, ◌=?◌,
  if◌then◌else◌,
}
use cloudstack_csi_driver.Prelude.Int.{ℤ, pos, ltb_ℤ, mul64}
use cloudstack_csi_driver.Prelude.Maps.{Map, lookup, insert, erase}
use cloudstack_csi_driver.Prelude.Prog.{Prog, ok, err}
use cloudstack_csi_driver.Util.Gb.{giga_bytes_to_bytes}
use cloudstack_csi_driver.Cloud.{
  Volume, Snapshot, Vm, Err, not_found, already_exists, other, Connector,
}

abbrev pub fake_zone : String
fake_zone = "a1887604-237c-4212-a9cd-94620b7880fa"

abbrev pub fake_node : Vm
fake_node = record { id = "0d7107a3-94d2-44e7-89b8-8930881309a5"; zone_id = fake_zone }

-- `fakeConnector`, its node aside, which no operation changes; and how many identifiers were drawn.
-- A snapshot is not changed after it is made, so its pointer is modelled by its value.
pub record FakeConnector : Type 0 where
  pub volumes_by_id : Map Volume
  pub volumes_by_name : Map Volume
  pub snapshots_by_id : Map Snapshot
  pub snapshots_by_name : Map (List Snapshot)
  pub drawn : ℕ

-- What the code takes from other packages: the identifiers that `uuid.GenerateUUID` returns, in
-- order, and the order in which `range` visits the values of a map.
pub record Supply : Type 0 where
  pub uuid : ℕ → String
  pub visit : Map Snapshot → List Snapshot

abbrev pub Fake : Type 0 → Type 0
Fake A = Prog Err FakeConnector A

abbrev pub first_volume : Volume
first_volume = record {
  id = "ace9f28b-3081-40c1-8353-4cc3e3014072";
  name = "vol-1";
  size = pos 10;
  disk_offering_id = "9743fd77-0f5d-4ef9-b2f8-f194235c769c";
  domain_id = "";
  project_id = "";
  zone_id = fake_zone;
  virtual_machine_id = "";
  device_id = "";
}

unfoldable pub new : FakeConnector
new = record {
  volumes_by_id = (first_volume.id, first_volume) ∷ [];
  volumes_by_name = (first_volume.name, first_volume) ∷ [];
  snapshots_by_id = [];
  snapshots_by_name = [];
  drawn = 0;
}

unfoldable pub get_vm_by_id : String → Fake Vm
get_vm_by_id id s = if id =? fake_node.id then ok fake_node s else err not_found s

unfoldable pub get_node_info : String → Fake Vm
get_node_info name s = ok fake_node s

unfoldable pub list_zones_id : Fake (List String)
list_zones_id s = ok (fake_zone ∷ []) s

-- The value, or not found.
abbrev pub found : {A : Type 0} → Option A → Fake A
found none s = err not_found s
found (some a) s = ok a s

unfoldable pub get_volume_by_id : String → Fake Volume
get_volume_by_id id s =
    if id =? ""
    then err (other "invalid volume ID: empty string") s
    else found (lookup id s.volumes_by_id) s

unfoldable pub get_volume_by_name : String → Fake Volume
get_volume_by_name name s =
    if name =? ""
    then err (other "invalid volume name: empty string") s
    else found (lookup name s.volumes_by_name) s

abbrev pub store : Volume → FakeConnector → FakeConnector
store vol s = record s {
  volumes_by_id = insert vol.id vol s.volumes_by_id;
  volumes_by_name = insert vol.name vol s.volumes_by_name;
}

abbrev pub made_volume : String → String → ℤ → String → String → Volume
made_volume id name size offering zone = record {
  id = id;
  name = name;
  size = size;
  disk_offering_id = offering;
  domain_id = "";
  project_id = "";
  zone_id = zone;
  virtual_machine_id = "";
  device_id = "";
}

abbrev pub without : Option Volume → Map Volume → Map Volume
without none m = m
without (some vol) m = erase vol.name m

unfoldable pub delete_volume : String → Fake (Unit {0})
delete_volume id s = ok tt (record s {
  volumes_by_id = erase id s.volumes_by_id;
  volumes_by_name = without (lookup id s.volumes_by_id) s.volumes_by_name;
})

unfoldable pub attach_volume : String → String → Fake String
attach_volume volume_id vm_id s = ok "1" s

unfoldable pub detach_volume : String → Fake (Unit {0})
detach_volume volume_id s = ok tt s

-- A volume of the map grows, and does not shrink.
abbrev pub grow : String → ℤ → Option Volume → Fake (Unit {0})
grow volume_id size none s = err not_found s
grow volume_id size (some vol) s =
    if ltb_ℤ vol.size size
    then (let vol' = record vol { size = size } in
        ok tt (record s {
          volumes_by_id = insert volume_id vol' s.volumes_by_id;
          volumes_by_name = insert vol.name vol' s.volumes_by_name;
        }))
    else ok tt s

unfoldable pub expand_volume : String → ℤ → Fake (Unit {0})
expand_volume volume_id size s =
    grow volume_id (mul64 (mul64 (mul64 size 1024) 1024) 1024) (lookup volume_id s.volumes_by_id) s

unfoldable pub create_volume_from_snapshot : String → String → String → String → ℤ → Fake Volume
create_volume_from_snapshot zone name project snapshot size s =
    let vol =
      made_volume ("fake-vol-from-snap-" <> name) name (giga_bytes_to_bytes size)
        "fake-disk-offering" zone in
    ok vol (store vol s)

-- A snapshot of that name, of another volume.
abbrev pub is_conflict : String → List Snapshot → Bool
is_conflict volume_id [] = false
is_conflict volume_id (snap ∷ snaps) =
    if snap.volume_id =? volume_id then is_conflict volume_id snaps else true

-- `m[k]` of a map of slices.
abbrev pub named : Option (List Snapshot) → List Snapshot
named none = []
named (some snaps) = snaps

unfoldable pub get_snapshot_by_id : String → Fake Snapshot
get_snapshot_by_id id s = found (lookup id s.snapshots_by_id) s

abbrev pub first_snapshot : List Snapshot → Fake Snapshot
first_snapshot [] s = err not_found s
first_snapshot (snap ∷ snaps) s = ok snap s

unfoldable pub get_snapshot_by_name : String → Fake Snapshot
get_snapshot_by_name name s =
    if name =? ""
    then err (other "invalid snapshot name: empty string") s
    else first_snapshot (named (lookup name s.snapshots_by_name)) s

-- The snapshots of a volume.
abbrev pub of_volume : String → List Snapshot → List Snapshot
of_volume volume_id [] = []
of_volume volume_id (snap ∷ snaps) =
    let rest = of_volume volume_id snaps in
    if snap.volume_id =? volume_id then snap ∷ rest else rest

abbrev pub at_most_one : Option Snapshot → List Snapshot
at_most_one none = []
at_most_one (some snap) = snap ∷ []

-- The first of that identifier goes.
abbrev pub drop_snapshot : String → List Snapshot → List Snapshot
drop_snapshot id [] = []
drop_snapshot id (snap ∷ snaps) =
    let rest = drop_snapshot id snaps in if snap.id =? id then snaps else snap ∷ rest

abbrev pub forget : String → Option Snapshot → Fake (Unit {0})
forget id none s = err not_found s
forget id (some snap) s = ok tt (record s {
  snapshots_by_id = erase id s.snapshots_by_id;
  snapshots_by_name =
      insert snap.name (drop_snapshot id (named (lookup snap.name s.snapshots_by_name)))
        s.snapshots_by_name;
})

unfoldable pub delete_snapshot : String → Fake (Unit {0})
delete_snapshot id s = forget id (lookup id s.snapshots_by_id) s

module _ (U : Supply) where
  unfoldable pub create_volume : String → String → String → ℤ → Fake String
  create_volume offering zone name size s =
      let id = U.uuid s.drawn in
      let vol = made_volume id name (giga_bytes_to_bytes size) offering zone in
      ok id (store vol (record s { drawn = suc s.drawn }))

  abbrev pub made_snapshot : String → String → String → Snapshot
  made_snapshot id volume_id name = record {
    id = id;
    name = name;
    size = pos 0;
    domain_id = "fake-domain";
    project_id = "";
    zone_id = fake_zone;
    volume_id = volume_id;
    created_at = "2025-07-07T16:13:06-0700";
  }

  unfoldable pub create_snapshot : String → String → Fake Snapshot
  create_snapshot volume_id name s =
      if name =? ""
      then err (other "invalid snapshot name: empty string") s
      else if is_conflict volume_id (named (lookup name s.snapshots_by_name))
      then err already_exists s
      else (let snap = made_snapshot (U.uuid s.drawn) volume_id name in
          ok snap (record s {
            snapshots_by_id = insert snap.id snap s.snapshots_by_id;
            snapshots_by_name =
                insert name (named (lookup name s.snapshots_by_name) ++ (snap ∷ []))
                  s.snapshots_by_name;
            drawn = suc s.drawn;
          }))

  unfoldable pub list_snapshots : String → String → Fake (List Snapshot)
  list_snapshots volume_id snapshot_id s =
      if not (snapshot_id =? "")
      then ok (at_most_one (lookup snapshot_id s.snapshots_by_id)) s
      else if not (volume_id =? "")
      then ok (of_volume volume_id (U.visit s.snapshots_by_id)) s
      else ok (U.visit s.snapshots_by_id) s

  -- The connector as the driver sees it.
  abbrev pub fake_connector : Connector
  fake_connector = record {
    State = FakeConnector;
    get_node_info = get_node_info;
    get_vm_by_id = get_vm_by_id;
    list_zones_id = list_zones_id;
    get_volume_by_id = get_volume_by_id;
    get_volume_by_name = get_volume_by_name;
    create_volume = create_volume;
    delete_volume = delete_volume;
    attach_volume = attach_volume;
    detach_volume = detach_volume;
    expand_volume = expand_volume;
    create_volume_from_snapshot = create_volume_from_snapshot;
    get_snapshot_by_id = get_snapshot_by_id;
    get_snapshot_by_name = get_snapshot_by_name;
    create_snapshot = create_snapshot;
    delete_snapshot = delete_snapshot;
    list_snapshots = list_snapshots;
  }
