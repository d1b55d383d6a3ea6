-- ===== src/Tests.antt =====
-- Concrete data for the runs of the children: sets, a supply of identifiers, time stamps, a mounter.
mod Util
mod Cloud
mod Controller
mod Lifecycle
mod Expansion
mod Publish
mod Snapshots
mod Node
mod Machine
mod Mounts
mod Syncer
mod Classes
mod Convergence
mod Mount
mod Cmd
use cloudstack_csi_driver.Prelude.{
  ℕ, String, ◌<>◌, Bool, true, false, Option, none, some, List, [], ◌∷◌, ◌≡◌, ◌≢◌, refl, ◌=?◌,
  if◌then◌else◌, arith,
}
use cloudstack_csi_driver.Prelude.Int.{ℤ, pos}
use cloudstack_csi_driver.Prelude.Maps.{Map}
use cloudstack_csi_driver.Prelude.Strconv.{itoa}
use cloudstack_csi_driver.Prelude.Prog.{Prog, ok}
use cloudstack_csi_driver.Util.VolumeLocks.{Sets}
use cloudstack_csi_driver.Cloud.{Connector, Snapshot, Volume}
use cloudstack_csi_driver.Cloud.Fake.{
  FakeConnector, Supply, fake_connector, first_volume, new, fake_node,
}
use cloudstack_csi_driver.Driver.Controller.Snapshots.{Times}
use cloudstack_csi_driver.Driver.Controller.{Server, new_controller_server}
use cloudstack_csi_driver.Driver.Csi.{VolumeCapability, single_node_writer, mount}
use cloudstack_csi_driver.Mount.{Mounter, VolumeStatistics}
use cloudstack_csi_driver.Driver.Node.{NodeServer}

-- Sets as lists.
abbrev has : List String → String → Bool
has [] k = false
has (j ∷ s) k = if k =? j then true else has s k

abbrev delete : List String → String → List String
delete [] k = []
delete (j ∷ s) k = let rest = delete s k in if j =? k then rest else j ∷ rest

pub has-delete :
    (s : List String) (k j : String) → has (delete s k) j ≡ (if j =? k then false else has s j)
has-delete [] k j = ground arith
has-delete (x ∷ s) k j = ground (arith, has-delete s k j)

abbrev pub sets : Sets
sets = record {
  Set = List String;
  new = [];
  has = has;
  insert = λ s k. k ∷ s;
  delete = delete;
  has-new = λ k. refl;
  has-insert = λ s k j. refl;
  has-delete = has-delete;
}

abbrev values : Map Snapshot → List Snapshot
values [] = []
values ((k, v) ∷ m) = v ∷ values m

abbrev pub supply : Supply
supply = record { uuid = λ n. "id-" <> itoa n; visit = values }

abbrev pub cloud : Connector
cloud = fake_connector supply

abbrev pub times : Times
times = record { Time = String; zero_time = ""; parse = λ s. some s }

-- A machine that records what is done to it.
abbrev did : {A : Type 0} → A → String → Prog (Unit {0}) (List String) A
did a text s = ok a (text ∷ s)

abbrev sees : {A : Type 0} → A → Prog (Unit {0}) (List String) A
sees a s = ok a s

abbrev no_statistics : VolumeStatistics
no_statistics = record {
  available_bytes = pos 0;
  total_bytes = pos 0;
  used_bytes = pos 0;
  available_inodes = pos 0;
  total_inodes = pos 0;
  used_inodes = pos 0;
}

-- `device` is what is mounted anywhere, `refs` times.
abbrev pub mounter : String → ℤ → Bool → Mounter
mounter device refs not_mount = record {
  State = List String;
  Error = Unit {0};
  is_not_exist = λ e. false;
  is_corrupted_mnt = λ e. false;
  format_and_mount = λ source target fs_type options. did tt "format";
  mount = λ source target fs_type options. did tt "mount";
  get_block_size_bytes = λ path. sees (pos 1073741824);
  get_device_path = λ id. sees "/dev/vdb";
  get_device_name = λ path. sees (device, refs);
  get_statistics = λ path. sees no_statistics;
  is_block_device = λ path. sees false;
  is_likely_not_mount_point = λ path. sees not_mount;
  make_dir = λ path. did tt "mkdir";
  make_file = λ path. did tt "touch";
  need_resize = λ source target. sees true;
  path_exists = λ path. sees true;
  resize = λ source target. did true "resize";
  unpublish = λ path. did tt "unpublish";
  unstage = λ path. did tt "unstage";
  remove = λ path. did tt "remove";
}

abbrev pub capability : VolumeCapability
capability = record {
  access_mode = some single_node_writer;
  access_type = mount "EXT4" ("noatime" ∷ "ro" ∷ "noatime" ∷ []);
}

-- A volume that is attached to a machine.
abbrev pub attached : Volume
attached = record first_volume { virtual_machine_id = fake_node.id; device_id = "2" }

abbrev pub attached_cloud : FakeConnector
attached_cloud = record {
  volumes_by_id = (attached.id, attached) ∷ [];
  volumes_by_name = (attached.name, attached) ∷ [];
  snapshots_by_id = [];
  snapshots_by_name = [];
  drawn = 0;
}

abbrev pub server : FakeConnector → Server sets cloud
server c = new_controller_server sets cloud c

pub differs : (s t : String) → (s =? t) ≡ false → s ≢ t
differs s t h e = ground arith
