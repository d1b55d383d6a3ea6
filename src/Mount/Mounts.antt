-- ===== src/Mount/Mounts.antt =====
-- The mounts of a machine under pkg/mount/mount.go: what the kernel and k8s.io/mount-utils are
-- documented to do to them, where no mount is propagated to another mount point of the machine.
pub mod Search
use cloudstack_csi_driver.Prelude.{
  String, List, [], ◌∷◌, ◌++◌, ◌≡◌, ◌≢◌, ◌=?◌, if◌then◌else◌, false, true,
}
use cloudstack_csi_driver.Prelude.Int.{ℤ, pos}
use cloudstack_csi_driver.Prelude.Prog.{Prog, ok, final}
use cloudstack_csi_driver.Mount.Os.{Os}
use cloudstack_csi_driver.Driver.Node.Options.{has_mount_option}

-- A program that leaves the mounts as they are, also where it fails.
abbrev pub Still : {E S A : Type 0} → (S → String → List String) → Prog E S A → Type 0
Still {S = S} at m = (s : S) (path : String) → at (final (m s)) path ≡ at s path

abbrev pub first : List String → String
first [] = ""
first (device ∷ devices) = device

pub record Mounts (O : Os) : Type 0 where
  -- The devices of the entries of /proc/mounts at a mount point, in their order; the mount point that
  -- a path means, after its symbolic links; and the name that mount gives a device, whose path may be
  -- a link.
  pub at : O.State → String → List String
  pub resolve : String → String
  pub real : String → String
  pub stat : (path : String) → Still at (O.stat path)
  pub stat_mode : (path : String) → Still at (O.stat_mode path)
  pub mkdir_all : (path : String) → Still at (O.mkdir_all path)
  pub read_dir : (path : String) → Still at (O.read_dir path)
  -- The scan of a host, and the commands that only ask.
  pub scan : (path : String) → Still at (O.write_file path "- - -")
  pub blockdev : (args : List String) → Still at (O.output "blockdev" args)
  pub grep : (args : List String) → Still at (O.output "grep" args)
  pub udevadm : (args : List String) → Still at (O.output "udevadm" args)
  pub trigger : Still at (O.combined_output "udevadm" ("trigger" ∷ []))
  pub likely : (path : String) → Still at (O.is_likely_not_mount_point path)
  pub device_name : (path : String) → Still at (O.get_device_name_from_mount path)
  pub path_exists : (path : String) → Still at (O.mount_path_exists path)
  pub resize : (device path : String) → Still at (O.resize device path)
  pub need_resize : (device path : String) → Still at (O.need_resize device path)
  -- `GetDeviceNameFromMount` returns the first device at the mount point, or no name; and no
  -- references just if nothing is mounted there.
  pub device_at :
      (path : String) (s t : O.State) (device : String) (refs : ℤ)
      → O.get_device_name_from_mount path s ≡ ok (device, refs) t
      → device ≡ first (at s (resolve path))
  pub nothing_at :
      (path : String) (s t : O.State) (device : String)
      → O.get_device_name_from_mount path s ≡ ok (device, pos 0) t
      → at s (resolve path) ≡ []
  pub formats :
      (source target fs_type : String) (options : List String) (s t : O.State) (path : String)
      → O.format_and_mount source target fs_type options s ≡ ok tt t
      → at t path ≡ (if path =? resolve target then at s path ++ (real source ∷ []) else at s path)
  -- A bind mount of a mount point is an entry with the device that is mounted there.
  pub binds :
      (source target fs_type : String) (options : List String) (s t : O.State)
      (device path : String)
      → O.mount source target fs_type options s ≡ ok tt t
      → has_mount_option options "bind" ≡ true
      → at s (resolve source) ≡ device ∷ []
      → at t path ≡ (if path =? resolve target then at s path ++ (device ∷ []) else at s path)
  pub mount_point_at :
      (path : String) (s t : O.State)
      → O.is_likely_not_mount_point path s ≡ ok false t
      → at s (resolve path) ≢ []
  -- `CleanupMountPoint` fails where something is still mounted after it has unmounted.
  pub cleans_up :
      (target : String) (s t : O.State) (path : String)
      → O.cleanup_mount_point target s ≡ ok tt t
      → at t path ≡ (if path =? resolve target then [] else at s path)
