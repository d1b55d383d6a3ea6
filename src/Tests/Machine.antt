-- ===== src/Tests/Machine.antt =====
-- A machine with one disk, and with a table of mounts, several of which may stand at one mount point.
use cloudstack_csi_driver.Prelude.{
  String, Bool, true, false, Option, none, some, List, [], ◌∷◌, ◌++◌, ◌≡◌, ◌≢◌, ◌=?◌, refl, arith,
  if◌then◌else◌, inl, inr, ◌⊎◌,
}
use cloudstack_csi_driver.Prelude.Int.{ℤ, pos}
use cloudstack_csi_driver.Prelude.Maps.{Map, lookup, insert, erase, lookup-insert, lookup-erase}
use cloudstack_csi_driver.Prelude.Prog.{Prog, ok, err}
use cloudstack_csi_driver.Mount.Os.{Os}
use cloudstack_csi_driver.Mount.Mounts.{Mounts, Still, first}
use cloudstack_csi_driver.Driver.Node.Options.{has_mount_option}
use cloudstack_csi_driver.Tests.Mount.{disk_space}

abbrev pub MountTable : Type 0
MountTable = Map (List String)

abbrev Answers : Type 0 → Type 0
Answers A = Prog (Unit {0}) MountTable A

abbrev or_nothing : Option (List String) → List String
or_nothing none = []
or_nothing (some devices) = devices

abbrev pub at : MountTable → String → List String
at s path = or_nothing (lookup path s)

-- The name of a device, which a link may mean.
abbrev pub real : String → String
real device = if device =? "/dev/disk/by-id/virtio-1" then "/dev/vdb" else device

abbrev put : String → String → Answers (Unit {0})
put device target s = ok tt (insert target (at s target ++ (device ∷ [])) s)

abbrev source_of : Bool → String → MountTable → String
source_of true source s = first (at s source)
source_of false source s = real source

abbrev mount : String → String → List String → Answers (Unit {0})
mount source target options s = put (source_of (has_mount_option options "bind") source s) target s

-- The last mount goes, and it is an error if another one is left.
abbrev cleaned : List String → String → Answers (Unit {0})
cleaned [] target s = ok tt s
cleaned (device ∷ []) target s = ok tt (erase target s)
cleaned (device ∷ other ∷ others) target s = err tt (insert target (device ∷ others) s)

abbrev clean_up : String → Answers (Unit {0})
clean_up target s = cleaned (at s target) target s

abbrev named : List String → String × ℤ
named [] = ("", pos 0)
named (device ∷ others) = (device, pos 1)

abbrev is_free : List String → Bool
is_free [] = true
is_free (device ∷ others) = false

abbrev printed : String → Answers String
printed program s =
    if program =? "grep"
    then err tt s
    else if program =? "blockdev"
    then ok "1073741824\n" s
    else ok "ID=1\n" s

abbrev disks : String → Answers (Unit {0})
disks path s = if path =? "/dev/xvdb" then ok tt s else err tt s

abbrev pub system : Os
system = record {
  State = MountTable;
  Error = Unit {0};
  File = Unit {0};
  is_not_exist = λ e. true;
  is_exist = λ e. false;
  error_text = λ e. "exit status 1";
  invalid = tt;
  stat = disks;
  stat_mode = λ path s. ok 0x61B0 s;
  statfs = λ path s. ok disk_space s;
  mkdir_all = λ path s. ok tt s;
  open_create = λ path s. ok tt s;
  close = λ file s. ok tt s;
  remove = λ path s. ok tt s;
  read_dir = λ path s. ok [] s;
  write_file = λ path content s. ok tt s;
  output = λ program args s. printed program s;
  combined_output = λ program args s. printed program s;
  tries = λ n s. n;
  tries-le = λ n s. omega arith;
  mount = λ source target fs_type options. mount source target options;
  format_and_mount = λ source target fs_type options. put (real source) target;
  is_likely_not_mount_point = λ path s. ok (is_free (at s path)) s;
  get_device_name_from_mount = λ path s. ok (named (at s path)) s;
  mount_path_exists = λ path s. ok false s;
  cleanup_mount_point = clean_up;
  is_corrupted_mnt = λ e. false;
  resize = λ device path s. ok true s;
  need_resize = λ device path s. ok true s;
}

pub printed-Still : (program : String) → Still at (printed program)
printed-Still program s path = ground arith

pub disks-Still : (file : String) → Still at (disks file)
disks-Still file s path = ground arith

-- A list is empty, or it is not.
List-cases :
    (devices : List String)
    → (devices ≡ []) ⊎ ((d : String) × (ds : List String) × (devices ≡ d ∷ ds))
List-cases [] = inl refl
List-cases (d ∷ ds) = inr (d, ds, refl)

pub device_at :
    (path : String) (s t : MountTable) (device : String) (refs : ℤ)
    → system.get_device_name_from_mount path s ≡ ok (device, refs) t
    → device ≡ first (at s path)
device_at path s t device refs h = elim (List-cases (at s path)) [
  | inl free ↦ ground arith
  | inr (d, ds, there) ↦ ground arith
]

pub nothing_at :
    (path : String) (s t : MountTable) (device : String)
    → system.get_device_name_from_mount path s ≡ ok (device, pos 0) t
    → at s path ≡ []
nothing_at path s t device h = elim (List-cases (at s path)) [
  | inl free ↦ free
  | inr (d, ds, there) ↦ absurd (ground arith)
]

pub mount_point_at :
    (path : String) (s t : MountTable)
    → system.is_likely_not_mount_point path s ≡ ok false t
    → at s path ≢ []
mount_point_at path s t h free = absurd (ground arith)

pub puts :
    (device target : String) (s t : MountTable) (path : String)
    → put device target s ≡ ok tt t
    → at t path ≡ (if path =? target then at s path ++ (device ∷ []) else at s path)
puts device target s t path h =
    ground (arith, lookup-insert path target (at s target ++ (device ∷ [])) s)

pub binds :
    (source target fs_type : String) (options : List String) (s t : MountTable)
    (device path : String)
    → system.mount source target fs_type options s ≡ ok tt t
    → has_mount_option options "bind" ≡ true
    → at s source ≡ device ∷ []
    → at t path ≡ (if path =? target then at s path ++ (device ∷ []) else at s path)
binds source target fs_type options s t device path h bind there =
    puts device target s t path (ground arith)

pub cleans_up :
    (target : String) (s t : MountTable) (path : String)
    → clean_up target s ≡ ok tt t
    → at t path ≡ (if path =? target then [] else at s path)
cleans_up target s t path h = elim (List-cases (at s target)) [
  | inl free ↦ ground arith
  | inr (d, ds, there) ↦ elim (List-cases ds) [
    | inl one ↦ ground (arith, lookup-erase path target s)
    | inr (e, es, more) ↦ absurd (ground arith)
  ]
]

abbrev pub system-Mounts : Mounts system
system-Mounts = record {
  at = at;
  resolve = λ path. path;
  real = real;
  stat = disks-Still;
  stat_mode = λ path s p. refl;
  mkdir_all = λ path s p. refl;
  read_dir = λ path s p. refl;
  scan = λ path s p. refl;
  blockdev = λ args. printed-Still "blockdev";
  grep = λ args. printed-Still "grep";
  udevadm = λ args. printed-Still "udevadm";
  trigger = printed-Still "udevadm";
  likely = λ path s p. refl;
  device_name = λ path s p. refl;
  path_exists = λ path s p. refl;
  resize = λ device path s p. refl;
  need_resize = λ device path s p. refl;
  device_at = device_at;
  nothing_at = nothing_at;
  mount_point_at = mount_point_at;
  formats = λ source target fs_type options. puts (real source) target;
  binds = binds;
  cleans_up = cleans_up;
}
