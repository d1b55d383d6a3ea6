-- ===== src/Util/OperationLock.antt =====
-- pkg/util/idlocker.go, the type OperationLock: counters of the operations on each volume.
-- The mutex makes each method one atomic step.
pub mod Counters
pub mod Exclusion
pub mod Sharing
use cloudstack_csi_driver.Prelude.{
  String, Bool, true, false, not, Option, none, some, if◌then◌else◌, [],
}
use cloudstack_csi_driver.Prelude.Int.{ℤ, pos, negsuc, add64, eqb_ℤ}
use cloudstack_csi_driver.Prelude.Maps.{Map, lookup, insert, erase}
use cloudstack_csi_driver.Prelude.Prog.{Outcome, ok, Prog, ◌>>=◌, ◌>>◌, require, fail}

-- The type operation: its five constants, and any other string.
pub data Operation : Type 0 where
  create_op delete_op clone_opt restore_op expand_op : Operation
  other_op : String → Operation

pub data LockError : Type 0 where
  already_exists : Operation → String → LockError
  not_supported : Operation → LockError

-- The outer map always has exactly the five keys that the constructor makes.
pub record OperationLock : Type 0 where
  pub creates : Map ℤ
  pub deletes : Map ℤ
  pub clones : Map ℤ
  pub restores : Map ℤ
  pub expands : Map ℤ

unfoldable pub new_operation_lock : OperationLock
new_operation_lock = record { creates = []; deletes = []; clones = []; restores = []; expands = [] }

-- `_, ok := m[id]`
unfoldable pub held : Map ℤ → String → Bool
held m id = elim (lookup id m) [ none ↦ false | some v ↦ true ]

-- `m[id]`, with the zero value for a missing key.
unfoldable pub count : Map ℤ → String → ℤ
count m id = elim (lookup id m) [ none ↦ pos 0 | some v ↦ v ]

unfoldable pub bump : Map ℤ → String → Map ℤ
unfolding count
bump m id = insert id (add64 (count m id) (pos 1)) m

unfoldable pub try_acquire : Operation → String → Prog LockError OperationLock (Unit {0})
unfolding bump
try_acquire create_op id l = ok tt (record l { creates = bump l.creates id })
try_acquire clone_opt id l =
    (do
      require (not (held l.expands id)) (already_exists expand_op id)
      (λ s. ok tt (record s { clones = bump s.clones id })))
      l
try_acquire delete_op id l =
    (do
      require (not (held l.expands id)) (already_exists expand_op id)
      require (not (held l.restores id)) (already_exists restore_op id)
      (λ s. ok tt (record s { deletes = insert id (pos 1) s.deletes })))
      l
try_acquire restore_op id l =
    (do
      require (not (held l.deletes id)) (already_exists delete_op id)
      (λ s. ok tt (record s { restores = bump s.restores id })))
      l
try_acquire expand_op id l =
    (do
      require (not (held l.deletes id)) (already_exists delete_op id)
      require (not (held l.clones id)) (already_exists clone_opt id)
      require (not (held l.creates id)) (already_exists create_op id)
      (λ s. ok tt (record s { expands = insert id (pos 1) s.expands })))
      l
try_acquire (other_op name) id l = fail (not_supported (other_op name)) l

-- The body of `release`, on the counters of one operation.
unfoldable pub release_one : Map ℤ → String → Map ℤ
unfolding count
release_one m id = elim (lookup id m) [
  | none ↦ m
  | some val ↦
      let m' = insert id (add64 val (negsuc 0)) m in
      if eqb_ℤ (count m' id) (pos 0) then erase id m' else m'
]

unfoldable pub release : Operation → String → OperationLock → OperationLock
unfolding release_one
release create_op id l = record l { creates = release_one l.creates id }
release delete_op id l = record l { deletes = release_one l.deletes id }
release clone_opt id l = record l { clones = release_one l.clones id }
release restore_op id l = record l { restores = release_one l.restores id }
release expand_op id l = record l { expands = release_one l.expands id }
release (other_op name) id l = l

-- The exported methods.
unfoldable pub get_snapshot_create_lock : String → Prog LockError OperationLock (Unit {0})
get_snapshot_create_lock = try_acquire create_op

unfoldable pub get_clone_lock : String → Prog LockError OperationLock (Unit {0})
get_clone_lock = try_acquire clone_opt

unfoldable pub get_delete_lock : String → Prog LockError OperationLock (Unit {0})
get_delete_lock = try_acquire delete_op

unfoldable pub get_restore_lock : String → Prog LockError OperationLock (Unit {0})
get_restore_lock = try_acquire restore_op

unfoldable pub get_expand_lock : String → Prog LockError OperationLock (Unit {0})
get_expand_lock = try_acquire expand_op

unfoldable pub release_snapshot_create_lock : String → OperationLock → OperationLock
release_snapshot_create_lock = release create_op

unfoldable pub release_clone_lock : String → OperationLock → OperationLock
release_clone_lock = release clone_opt

unfoldable pub release_delete_lock : String → OperationLock → OperationLock
release_delete_lock = release delete_op

unfoldable pub release_restore_lock : String → OperationLock → OperationLock
release_restore_lock = release restore_op

unfoldable pub release_expand_lock : String → OperationLock → OperationLock
release_expand_lock = release expand_op
