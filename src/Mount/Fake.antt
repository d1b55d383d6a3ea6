-- ===== src/Mount/Fake.antt =====
-- pkg/mount/fake.go: the mounter of the tests, on the fake mounts of mount-utils.
use cloudstack_csi_driver.Prelude.{
  String, Bool, true, false, if◌then◌else◌, ◌⊎◌, inl, inr, ◌*◌, ◌^◌,
}
use cloudstack_csi_driver.Prelude.Int.{pos}
use cloudstack_csi_driver.Prelude.Prog.{◌>>=◌, pure, fail, attempt}
use cloudstack_csi_driver.Mount.{Mounter, VolumeStatistics}
use cloudstack_csi_driver.Mount.Os.{Os, MountError, os, Mnt, sys}
use cloudstack_csi_driver.Mount.Files.{get_device_name, make_dir, make_file, unpublish, unstage}
use cloudstack_csi_driver.Mount.System.{of_system}

abbrev pub statistics : VolumeStatistics
statistics = record {
  available_bytes = pos (3 * 2 ^ 30);
  total_bytes = pos (10 * 2 ^ 30);
  used_bytes = pos (7 * 2 ^ 30);
  available_inodes = pos 3000;
  total_inodes = pos 10000;
  used_inodes = pos 7000;
}

module _ (O : Os) where
  abbrev pub there : O.Error ⊎ Unit {0} → Mnt O Bool
  there (inr u) = pure true
  there (inl e) = if O.is_not_exist e then pure false else fail (os e)

  unfoldable pub path_exists : String → Mnt O Bool
  path_exists path = do result ← attempt (O.stat path); there result

  abbrev pub mounter : Mounter
  mounter = record {
    State = O.State;
    Error = MountError O;
    is_not_exist = of_system O O.is_not_exist;
    is_corrupted_mnt = λ e. false;
    format_and_mount = λ source target fs_type options.
        sys {O = O} (O.format_and_mount source target fs_type options);
    mount = λ source target fs_type options. sys {O = O} (O.mount source target fs_type options);
    get_block_size_bytes = λ device. pure (pos 1073741824);
    get_device_path = λ volume_id. pure "/dev/sdb";
    get_device_name = get_device_name O;
    get_statistics = λ path. pure statistics;
    is_block_device = λ device. pure false;
    is_likely_not_mount_point = λ path. sys {O = O} (O.is_likely_not_mount_point path);
    make_dir = make_dir O;
    make_file = make_file O;
    need_resize = λ device path. pure false;
    path_exists = path_exists;
    resize = λ device path. pure true;
    unpublish = unpublish O;
    unstage = unstage O;
    remove = λ path. sys {O = O} (O.remove path);
  }
