-- ===== src/Tests/Snapshots.antt =====
-- Runs of the theorems on pages of snapshots.
use cloudstack_csi_driver.Prelude.{
  ◌≡◌, ◌≢◌, true, String, some, List, [], ◌∷◌, refl, arith, map, string_dec,
}
use cloudstack_csi_driver.Prelude.Int.{pos}
use cloudstack_csi_driver.Prelude.Prog.{ok, final}
use cloudstack_csi_driver.Cloud.{Snapshot}
use cloudstack_csi_driver.Cloud.Fake.{FakeConnector, new, first_volume, fake_node, made_snapshot}
use cloudstack_csi_driver.Cloud.Fake
use cloudstack_csi_driver.Driver.Controller.{new_controller_server, Server}
use cloudstack_csi_driver.Driver.Controller.Snapshots.{entry_of, SnapshotEntry, create_snapshot}
use cloudstack_csi_driver.Driver.Controller.Snapshots.Twice.{create_snapshot_twice}
use cloudstack_csi_driver.Tests.Cloud.{supply-IsSupply}
use cloudstack_csi_driver.Prelude.Maps.{lookup}
use cloudstack_csi_driver.Prelude.Strconv.{itoa}
use cloudstack_csi_driver.Driver.Controller.Snapshots.Pages.{all_pages, all_pages_lem}
use cloudstack_csi_driver.Tests.{sets, cloud, times, server, supply}

abbrev snapshot : String → Snapshot
snapshot id = record {
  id = id;
  name = "snap";
  size = pos 0;
  domain_id = "";
  project_id = "";
  zone_id = "";
  volume_id = "v";
  created_at = "2025-07-07T16:13:06-0700";
}

abbrev snapshots : List Snapshot
snapshots = snapshot "s1" ∷ snapshot "s2" ∷ snapshot "s3" ∷ []

abbrev with_snapshots : FakeConnector
with_snapshots = record {
  volumes_by_id = [];
  volumes_by_name = [];
  snapshots_by_id = ("s1", snapshot "s1") ∷ ("s2", snapshot "s2") ∷ ("s3", snapshot "s3") ∷ [];
  snapshots_by_name = [];
  drawn = 0;
}

abbrev Unchanged : FakeConnector → Type 0
Unchanged c = c ≡ with_snapshots

stays :
    (c : FakeConnector)
    → Unchanged c
    → (c' : FakeConnector) × (Fake.list_snapshots supply "" "" c ≡ ok snapshots c') × Unchanged c'
unfolding Fake.list_snapshots string_dec
stays c e = (with_snapshots, rw e refl, refl)

all_pages_lem_example :
    all_pages sets cloud times "" "" 2 4 "" (server with_snapshots)
    ≡ some (map (entry_of times) snapshots)
unfolding new_controller_server
all_pages_lem_example =
    all_pages_lem sets cloud times "" "" 2 snapshots Unchanged stays (omega arith) (omega arith)
      (omega arith) (server with_snapshots) refl

abbrev first_entry : SnapshotEntry times
first_entry = record {
  snapshot_id = "id-0";
  source_volume_id = first_volume.id;
  creation_time = "2025-07-07T16:13:06-0700";
  ready_to_use = true;
}

abbrev snapped_server : Server sets cloud
snapped_server = final (create_snapshot sets cloud times "snap-1" first_volume.id (server new))

snaps :
    create_snapshot sets cloud times "snap-1" first_volume.id (server new)
    ≡ ok first_entry snapped_server
unfolding create_snapshot Fake.get_volume_by_id Fake.create_snapshot new_controller_server new
    lookup string_dec itoa
snaps = refl

create_snapshot_twice_example :
    (e : SnapshotEntry times) × (t : Server sets cloud) × (create_snapshot sets cloud times "snap-1"
        first_volume.id snapped_server
      ≡ ok e t)
    × (e.source_volume_id ≡ first_volume.id)
    × (e.snapshot_id ≢ "id-0")
    × (lookup "id-0" t.cloud.snapshots_by_id
        ≡ some (made_snapshot supply "id-0" first_volume.id "snap-1"))
    × (lookup e.snapshot_id t.cloud.snapshots_by_id
        ≡ some (made_snapshot supply e.snapshot_id first_volume.id "snap-1"))
create_snapshot_twice_example =
    create_snapshot_twice sets supply times "snap-1" first_volume.id (server new) snapped_server
      first_entry supply-IsSupply snaps
