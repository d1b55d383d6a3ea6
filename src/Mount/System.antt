-- ===== src/Mount/System.antt =====
-- pkg/mount/mount.go: the mounter of a machine, which `New` makes.
use cloudstack_csi_driver.Prelude.{Bool, false}
use cloudstack_csi_driver.Mount.{Mounter}
use cloudstack_csi_driver.Mount.Os.{Os, MountError, os, text, wrapped, sys}
use cloudstack_csi_driver.Mount.Device.{get_block_size_bytes, is_block_device}
use cloudstack_csi_driver.Mount.Search.{get_device_path}
use cloudstack_csi_driver.Mount.Files.{
  get_device_name, path_exists, resize, need_resize, get_statistics, make_dir, make_file, unpublish,
  unstage,
}

module _ (O : Os) where
  -- Neither `os.IsNotExist` nor mount-utils looks at what an error wraps.
  abbrev pub of_system : (O.Error → Bool) → MountError O → Bool
  of_system p (os e) = p e
  of_system p (text t) = false
  of_system p (wrapped t e) = false

  abbrev pub mounter : Mounter
  mounter = record {
    State = O.State;
    Error = MountError O;
    is_not_exist = of_system O.is_not_exist;
    is_corrupted_mnt = of_system O.is_corrupted_mnt;
    format_and_mount = λ source target fs_type options.
        sys {O = O} (O.format_and_mount source target fs_type options);
    mount = λ source target fs_type options. sys {O = O} (O.mount source target fs_type options);
    get_block_size_bytes = get_block_size_bytes O;
    get_device_path = get_device_path O;
    get_device_name = get_device_name O;
    get_statistics = get_statistics O;
    is_block_device = is_block_device O;
    is_likely_not_mount_point = λ path. sys {O = O} (O.is_likely_not_mount_point path);
    make_dir = make_dir O;
    make_file = make_file O;
    need_resize = need_resize O;
    path_exists = path_exists O;
    resize = resize O;
    unpublish = unpublish O;
    unstage = unstage O;
    remove = λ path. sys {O = O} (O.remove path);
  }
