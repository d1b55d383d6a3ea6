-- ===== src/Mount/Os.antt =====
-- What pkg/mount calls: the kernel, other programs, k8s.io/mount-utils and the retries of
-- k8s.io/apimachinery. None of it is part of the repository.
use cloudstack_csi_driver.Prelude.{ℕ, ◌≤◌, String, Bool, List}
use cloudstack_csi_driver.Prelude.Int.{ℤ}
use cloudstack_csi_driver.Prelude.Prog.{Prog, map_err}

-- The fields of `unix.Statfs_t` that are read: uint64, but for the size of a block, an int64.
pub record Statfs : Type 0 where
  pub bavail : ℕ
  pub blocks : ℕ
  pub bfree : ℕ
  pub bsize : ℤ
  pub files : ℕ
  pub ffree : ℕ

pub record Os : Type 1 where
  pub State : Type 0
  pub Error : Type 0
  pub File : Type 0
  pub is_not_exist : Error → Bool
  pub is_exist : Error → Bool
  pub error_text : Error → String
  -- `os.ErrInvalid`, of an operation on a file that is nil.
  pub invalid : Error
  pub stat : String → Prog Error State (Unit {0})
  -- The mode that `unix.Stat` returns.
  pub stat_mode : String → Prog Error State ℕ
  pub statfs : String → Prog Error State Statfs
  pub mkdir_all : String → Prog Error State (Unit {0})
  pub open_create : String → Prog Error State File
  pub close : File → Prog Error State (Unit {0})
  pub remove : String → Prog Error State (Unit {0})
  pub read_dir : String → Prog Error State (List String)
  pub write_file : String → String → Prog Error State (Unit {0})
  -- What a command prints, to its standard output or to both of its outputs.
  pub output : String → List String → Prog Error State String
  pub combined_output : String → List String → Prog Error State String
  -- How often a back-off that is given a number of steps tries its condition before it gives up:
  -- fewer times where the context ends first.
  pub tries : ℕ → State → ℕ
  pub tries-le : (n : ℕ) (s : State) → tries n s ≤ n
  -- k8s.io/mount-utils
  pub mount : String → String → String → List String → Prog Error State (Unit {0})
  pub format_and_mount : String → String → String → List String → Prog Error State (Unit {0})
  pub is_likely_not_mount_point : String → Prog Error State Bool
  pub get_device_name_from_mount : String → Prog Error State (String × ℤ)
  pub mount_path_exists : String → Prog Error State Bool
  pub cleanup_mount_point : String → Prog Error State (Unit {0})
  pub is_corrupted_mnt : Error → Bool
  pub resize : String → String → Prog Error State Bool
  pub need_resize : String → String → Prog Error State Bool

-- An error of the functions of the package: one of the system, one with a text of its own, or one
-- that wraps another.
pub data MountError (O : Os) : Type 0 where
  os : O.Error → MountError O
  text : String → MountError O
  wrapped : String → O.Error → MountError O

abbrev pub Mnt : Os → Type 0 → Type 0
Mnt O A = Prog (MountError O) O.State A

-- A call of the system, whose error is returned as it is.
abbrev pub sys : {O : Os} {A : Type 0} → Prog O.Error O.State A → Mnt O A
sys {O} m = map_err {F = MountError O} os m
