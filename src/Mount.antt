-- ===== src/Mount.antt =====
-- pkg/mount: the interface of the mounter.
pub mod Os
pub mod Device
pub mod Mounts
pub mod Search
pub mod Files
pub mod System
pub mod Fake
use cloudstack_csi_driver.Prelude.{String, Bool, List}
use cloudstack_csi_driver.Prelude.Int.{ℤ}
use cloudstack_csi_driver.Prelude.Prog.{Prog}

pub record VolumeStatistics : Type 0 where
  pub available_bytes : ℤ
  pub total_bytes : ℤ
  pub used_bytes : ℤ
  pub available_inodes : ℤ
  pub total_inodes : ℤ
  pub used_inodes : ℤ

-- The interface of the mounter, with `os.Remove`, which the node service calls on the same file
-- system. A call may change the state of the machine, also where it fails.
pub record Mounter : Type 1 where
  pub State : Type 0
  pub Error : Type 0
  -- `os.IsNotExist`
  pub is_not_exist : Error → Bool
  pub is_corrupted_mnt : Error → Bool
  -- source, target, type, options
  pub format_and_mount : String → String → String → List String → Prog Error State (Unit {0})
  pub mount : String → String → String → List String → Prog Error State (Unit {0})
  pub get_block_size_bytes : String → Prog Error State ℤ
  pub get_device_path : String → Prog Error State String
  -- The device that is mounted at a path, and the number of references to it.
  pub get_device_name : String → Prog Error State (String × ℤ)
  pub get_statistics : String → Prog Error State VolumeStatistics
  pub is_block_device : String → Prog Error State Bool
  pub is_likely_not_mount_point : String → Prog Error State Bool
  pub make_dir : String → Prog Error State (Unit {0})
  pub make_file : String → Prog Error State (Unit {0})
  pub need_resize : String → String → Prog Error State Bool
  pub path_exists : String → Prog Error State Bool
  pub resize : String → String → Prog Error State Bool
  pub unpublish : String → Prog Error State (Unit {0})
  pub unstage : String → Prog Error State (Unit {0})
  pub remove : String → Prog Error State (Unit {0})
