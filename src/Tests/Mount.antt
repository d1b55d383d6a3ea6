-- ===== src/Tests/Mount.antt =====
-- Runs of the theorems on the mounter, on a machine with one disk.
use cloudstack_csi_driver.Prelude.{some}
use cloudstack_csi_driver.Cloud.Fake.{new}
use cloudstack_csi_driver.Mount.System.{mounter}
use cloudstack_csi_driver.Driver.Csi.{single_node_writer, block}
use cloudstack_csi_driver.Driver.Node.{NodeServer}
use cloudstack_csi_driver.Driver.Node.Publish.{NodePublishVolumeRequest, node_publish_volume}
use cloudstack_csi_driver.Driver.Node.Publish.AnyVolume.{publish_any}
use cloudstack_csi_driver.Tests.{sets, cloud, differs}
use cloudstack_csi_driver.Prelude.{
  ℕ, suc, ◌<◌, ◌≤◌, ◌-◌, ◌*◌, String, Bool, true, false, [], ◌∷◌, ◌≡◌, refl, ◌=?◌, ltb,
  if◌then◌else◌, string_dec, arith, ◌↔◌,
}
use cloudstack_csi_driver.Prelude.Strings.{trim_space, split, remove_all, take_bytes}
use cloudstack_csi_driver.Prelude.Maps.{insert}
use cloudstack_csi_driver.Mount.Device.{
  disk_uuid_to_serial, verify_device, is_block_device, get_block_size_bytes, is_device_mounted,
  get_device_properties, add_properties,
}
use cloudstack_csi_driver.Prelude.Int.{pos}
use cloudstack_csi_driver.Prelude.Prog.{Prog, ok, err}
use cloudstack_csi_driver.Prelude.Paths.{join, dir, rendered}
use cloudstack_csi_driver.Mount.Os.{Os, Statfs}
use cloudstack_csi_driver.Mount.Search.{
  scan, usable, get_device_path, get_device_path_for_xen_server, scan, usable,
}
use cloudstack_csi_driver.Mount.Search.Laws.{
  Appears, Verified, get_device_path_iff, get_device_path-Verified, get_device_path_any,
}
use cloudstack_csi_driver.Mount.Files.{statistics_of}
use cloudstack_csi_driver.Mount.Files.Laws.{IsSane, statistics_of_lem}

join_slashes : join ("/dev/disk/by-id" ∷ "virtio-1/../x" ∷ []) ≡ "/dev/disk/by-id/x"
unfolding join string_dec rendered
join_slashes = refl

dir_of_target : dir "/var/lib//kubelet/file" ≡ "/var/lib/kubelet"
unfolding dir string_dec rendered
dir_of_target = refl

abbrev pub disk_space : Statfs
disk_space = record {
  bavail = 70;
  blocks = 100;
  bfree = 80;
  bsize = pos 4096;
  files = 1000;
  ffree = 900;
}

-- The disk is there once a host was scanned; the state counts the scans.
abbrev there : String → ℕ → Bool
there path scans = if path =? "/dev/xvdb" then ltb 0 scans else false

abbrev printed : String → Prog Bool ℕ String
printed program s =
    if program =? "grep"
    then err false s
    else if program =? "blockdev"
    then ok "1073741824\n" s
    else ok "ID=1\n" s

abbrev machine : Os
machine = record {
  State = ℕ;
  Error = Bool;
  File = Unit {0};
  is_not_exist = λ e. e;
  is_exist = λ e. false;
  error_text = λ e. "exit status 1";
  invalid = false;
  stat = λ path s. if there path s then ok tt s else err true s;
  stat_mode = λ path s. ok 0x61B0 s;
  statfs = λ path s. ok disk_space s;
  mkdir_all = λ path s. ok tt s;
  open_create = λ path s. ok tt s;
  close = λ file s. ok tt s;
  remove = λ path s. ok tt s;
  read_dir = λ path s. ok ("host0" ∷ []) s;
  write_file = λ path text s. ok tt (suc s);
  output = λ program args s. printed program s;
  combined_output = λ program args s. printed program s;
  tries = λ n s. n;
  tries-le = λ n s. omega arith;
  mount = λ source target fs_type options s. ok tt s;
  format_and_mount = λ source target fs_type options s. ok tt s;
  is_likely_not_mount_point = λ path s. ok true s;
  get_device_name_from_mount = λ path s. ok ("", pos 0) s;
  mount_path_exists = λ path s. ok true s;
  cleanup_mount_point = λ path s. ok tt s;
  is_corrupted_mnt = λ e. false;
  resize = λ device path s. ok true s;
  need_resize = λ device path s. ok false s;
}

found_at_once : get_device_path_for_xen_server machine "v" 1 ≡ ok "/dev/xvdb" 1
unfolding get_device_path_for_xen_server scan usable verify_device is_block_device
    get_block_size_bytes is_device_mounted get_device_properties trim_space add_properties insert
    string_dec split
found_at_once = refl

found_for_other : get_device_path machine "w" 1 ≡ ok "/dev/xvdb" 1
unfolding string_dec
found_for_other =
    get_device_path_any machine "v" "w" 1 1 "/dev/xvdb" found_at_once refl (omega arith)

get_device_path-Verified_example : Verified machine "w" "/dev/xvdb" 1
get_device_path-Verified_example =
    get_device_path-Verified machine "w" 1 1 "/dev/xvdb" found_for_other

get_device_path_iff_example :
    ((get_device_path machine "v" 0 ≡ ok "/dev/xvdb" 1)
      ↔ ((n : ℕ) × (n < machine.tries 20 0) × Appears machine "v" n 0 "/dev/xvdb" 1))
    × (machine.tries 20 0 ≤ 20)
get_device_path_iff_example = get_device_path_iff machine "v" 0 1 "/dev/xvdb"

disk_space-IsSane : IsSane disk_space 4096
disk_space-IsSane = record {
  size = refl;
  available = omega arith;
  free = omega arith;
  blocks = omega arith;
  bytes = omega arith;
  free_inodes = omega arith;
  inodes = omega arith;
}

statistics_of_lem_example :
    (((statistics_of disk_space).available_bytes ≡ pos (70 * 4096))
      × ((statistics_of disk_space).total_bytes ≡ pos (100 * 4096))
      × ((statistics_of disk_space).used_bytes ≡ pos ((100 - 80) * 4096)))
    × ((statistics_of disk_space).available_inodes ≡ pos 900)
    × ((statistics_of disk_space).total_inodes ≡ pos 1000)
    × ((statistics_of disk_space).used_inodes ≡ pos (1000 - 900))
statistics_of_lem_example = statistics_of_lem disk_space 4096 disk_space-IsSane

abbrev block_request : NodePublishVolumeRequest
block_request = record {
  volume_id = "v";
  staging_target_path = "/staging";
  target_path = "/target";
  volume_capability = some (record { access_mode = some single_node_writer; access_type = block });
  readonly = false;
}

abbrev node : NodeServer sets cloud (mounter machine)
node = record {
  volume_locks = [];
  max_volumes_per_node = pos 10;
  node_name = "node-1";
  cloud = new;
  machine = 1;
}

publish_any_example :
    node_publish_volume sets cloud (mounter machine) block_request node
    ≡ node_publish_volume sets cloud
        (mounter machine)
        (record block_request { volume_id = "w" })
        node
unfolding string_dec
publish_any_example =
    publish_any sets cloud machine "v" "w" block_request
      (record { access_mode = some single_node_writer; access_type = block }) node 1 "/dev/xvdb"
      refl refl (differs "v" "" refl) (differs "w" "" refl) found_at_once refl (omega arith)

serial_of_disk : disk_uuid_to_serial "ace9f28b-3081-40c1-8353-4cc3e3014072" ≡ "ace9f28b308140c18353"
unfolding disk_uuid_to_serial remove_all take_bytes
serial_of_disk = refl
