-- ===== src/Driver/Node/Table.antt =====
-- The mounts of a machine, as the node service of pkg/driver/node.go relies on them: what the methods
-- of the mounter are documented to do where they succeed.
use cloudstack_csi_driver.Prelude.{
  String, List, [], ◌∷◌, ◌++◌, ◌≡◌, ◌≢◌, ◌=?◌, if◌then◌else◌, false, true,
}
use cloudstack_csi_driver.Prelude.Int.{ℤ, pos}
use cloudstack_csi_driver.Prelude.Prog.{Prog, ok, err}
use cloudstack_csi_driver.Mount.{Mounter}
use cloudstack_csi_driver.Mount.Mounts.{first}
use cloudstack_csi_driver.Driver.Node.Options.{has_mount_option}

-- A call that leaves the mounts as they are where it succeeds.
abbrev pub Keeps : {E S A : Type 0} → (S → String → List String) → Prog E S A → Type 0
Keeps {S = S} {A = A} at m =
    (s t : S) (a : A) (path : String) → m s ≡ ok a t → at t path ≡ at s path

pub record Table (M : Mounter) : Type 0 where
  -- The devices of the entries of /proc/mounts at a mount point, in their order; the mount point that
  -- a path means, after its symbolic links; and the name that mount gives a device, whose path may be
  -- a link.
  pub at : M.State → String → List String
  pub resolve : String → String
  pub real : String → String
  pub device_named :
      (volume_id : String) (s t : M.State) (device : String)
      → M.get_device_path volume_id s ≡ ok device t
      → device ≢ ""
  pub keeps_device : (volume_id : String) → Keeps at (M.get_device_path volume_id)
  pub keeps_exists : (path : String) → Keeps at (M.path_exists path)
  pub keeps_make_dir : (path : String) → Keeps at (M.make_dir path)
  pub keeps_name : (path : String) → Keeps at (M.get_device_name path)
  pub keeps_need : (device path : String) → Keeps at (M.need_resize device path)
  pub keeps_resize : (device path : String) → Keeps at (M.resize device path)
  -- `GetDeviceNameFromMount` returns the first device at the mount point, or no name; and no
  -- references just if nothing is mounted there.
  pub device_at :
      (path : String) (s t : M.State) (device : String) (refs : ℤ)
      → M.get_device_name path s ≡ ok (device, refs) t
      → device ≡ first (at s (resolve path))
  pub nothing_at :
      (path : String) (s t : M.State) (device : String)
      → M.get_device_name path s ≡ ok (device, pos 0) t
      → at s (resolve path) ≡ []
  pub formats :
      (source target fs_type : String) (options : List String) (s t : M.State) (path : String)
      → M.format_and_mount source target fs_type options s ≡ ok tt t
      → at t path ≡ (if path =? resolve target then at s path ++ (real source ∷ []) else at s path)
  -- A bind mount of a mount point is an entry with the device that is mounted there.
  pub binds :
      (source target fs_type : String) (options : List String) (s t : M.State)
      (device path : String)
      → M.mount source target fs_type options s ≡ ok tt t
      → has_mount_option options "bind" ≡ true
      → at s (resolve source) ≡ device ∷ []
      → at t path ≡ (if path =? resolve target then at s path ++ (device ∷ []) else at s path)
  -- What cleans up a mount point leaves nothing mounted there.
  pub unstages :
      (target : String) (s t : M.State) (path : String)
      → M.unstage target s ≡ ok tt t
      → at t path ≡ (if path =? resolve target then [] else at s path)
  pub unpublishes :
      (target : String) (s t : M.State) (path : String)
      → M.unpublish target s ≡ ok tt t
      → at t path ≡ (if path =? resolve target then [] else at s path)
  -- A check of a path, which may fail.
  pub keeps_likely : (path : String) → Keeps at (M.is_likely_not_mount_point path)
  pub keeps_failed_likely :
      (target : String) (s t : M.State) (e : M.Error) (path : String)
      → M.is_likely_not_mount_point target s ≡ err e t
      → at t path ≡ at s path
  pub keeps_failed_exists :
      (target : String) (s t : M.State) (e : M.Error) (path : String)
      → M.path_exists target s ≡ err e t
      → at t path ≡ at s path
  pub mount_point_at :
      (path : String) (s t : M.State)
      → M.is_likely_not_mount_point path s ≡ ok false t
      → at s (resolve path) ≢ []
