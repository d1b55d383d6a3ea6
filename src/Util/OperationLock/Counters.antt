-- ===== src/Util/OperationLock/Counters.antt =====
-- OperationLock against natural counters: what the maps hold for one volume after any calls.
use cloudstack_csi_driver.Prelude.{
  ℕ, zero, suc, ◌+◌, ◌-◌, ◌^◌, ◌≤◌, ◌<◌, String, not, ◌&&◌, Option, none, some, ◌≡◌, ◌≢◌,
  if◌then◌else◌, ◌==◌, arith, Option-cases, inl, inr, Bool, false, true, refl,
}
use cloudstack_csi_driver.Prelude.Int.{ℤ, pos, negsuc, add64}
use cloudstack_csi_driver.Prelude.Maps.{Map, lookup, insert, lookup-insert, lookup-erase}
use cloudstack_csi_driver.Prelude.Prog.{final, Outcome, ok, err}
use cloudstack_csi_driver.Util.OperationLock.{
  Operation, create_op, delete_op, clone_opt, restore_op, expand_op, other_op, OperationLock, held,
  count, bump, try_acquire, release_one, release,
}

-- The map counts `c` operations on `id`: no entry for none, and else the number.
abbrev pub Holds : Map ℤ → String → ℕ → Type 0
Holds m id c = lookup id m ≡ (if c == 0 then none else some (pos c))

bump-Holds :
    (m : Map ℤ) (id : String) (c : ℕ) → c + 1 < 2 ^ 63 → Holds m id c → Holds (bump m id) id (c + 1)
unfolding bump count
bump-Holds m id c b h = ground (arith, lookup-insert id id (add64 (count m id) (pos 1)) m)

bump_other : (m : Map ℤ) (id j : String) → j ≢ id → lookup j (bump m id) ≡ lookup j m
unfolding bump
bump_other m id j ne = ground (arith, lookup-insert j id (add64 (count m id) (pos 1)) m)

pub held-Holds : (m : Map ℤ) (id : String) (c : ℕ) → Holds m id c → held m id ≡ not (c == 0)
unfolding held
held-Holds m id c h = ground arith

release_one-Holds :
    (m : Map ℤ) (id : String) (c : ℕ)
    → c < 2 ^ 63
    → Holds m id c
    → Holds (release_one m id) id (c - 1)
unfolding release_one count
release_one-Holds m id zero b h = ground arith
release_one-Holds m id (suc c) b h =
    ground (arith, lookup-insert id id (pos c) m, lookup-erase id id (insert id (pos c) m))

release_one_other : (m : Map ℤ) (id j : String) → j ≢ id → lookup j (release_one m id) ≡ lookup j m
unfolding release_one
release_one_other m id j ne = elim (Option-cases (lookup id m)) [
  | inl e ↦ rw (e, release_one)
  | inr (v, e) ↦
      let w = add64 v (negsuc 0) in
      rw (e, release_one)
        (ground (arith, lookup-erase j id (insert id w m), lookup-insert j id w m))
]

abbrev pub is_ok : {E S A : Type 0} → Outcome E S A → Bool
is_ok (ok a s) = true
is_ok (err e s) = false

abbrev pub is_some : {A : Type 0} → Option A → Bool
is_some none = false
is_some (some a) = true

-- The counters of one volume.
pub record Counts : Type 0 where
  pub create : ℕ
  pub delete : ℕ
  pub clone : ℕ
  pub restore : ℕ
  pub expand : ℕ

abbrev pub no_operation : Counts
no_operation = record { create = 0; delete = 0; clone = 0; restore = 0; expand = 0 }

pub record Represents (l : OperationLock) (id : String) (c : Counts) : Type 0 where
  pub create_holds : Holds l.creates id c.create
  pub delete_holds : Holds l.deletes id c.delete
  pub clone_holds : Holds l.clones id c.clone
  pub restore_holds : Holds l.restores id c.restore
  pub expand_holds : Holds l.expands id c.expand

pub record Within (n : ℕ) (c : Counts) : Type 0 where
  pub create_within : c.create ≤ n
  pub delete_within : c.delete ≤ n
  pub clone_within : c.clone ≤ n
  pub restore_within : c.restore ≤ n
  pub expand_within : c.expand ≤ n

-- What an operation on a volume does to the counters of that volume, if it is admitted.
unfoldable pub admit : Operation → Counts → Option Counts
admit create_op c = some (record c { create = c.create + 1 })
admit clone_opt c = if c.expand == 0 then some (record c { clone = c.clone + 1 }) else none
admit delete_op c =
    if (c.expand == 0) && (c.restore == 0) then some (record c { delete = 1 }) else none
admit restore_op c = if c.delete == 0 then some (record c { restore = c.restore + 1 }) else none
admit expand_op c =
    if (c.delete == 0) && ((c.clone == 0) && (c.create == 0))
    then some (record c { expand = 1 })
    else none
admit (other_op name) c = none

unfoldable pub admitted : Operation → Counts → Counts
unfolding admit
admitted op c = elim (admit op c) [ none ↦ c | some c' ↦ c' ]

unfoldable pub finished : Operation → Counts → Counts
finished create_op c = record c { create = c.create - 1 }
finished delete_op c = record c { delete = c.delete - 1 }
finished clone_opt c = record c { clone = c.clone - 1 }
finished restore_op c = record c { restore = c.restore - 1 }
finished expand_op c = record c { expand = c.expand - 1 }
finished (other_op name) c = c

module _ (l : OperationLock) (id : String) (c : Counts) (n : ℕ) (small : n + 1 < 2 ^ 63)
    (w : Within n c) (r : Represents l id c) where
  pub try_acquire-Represents :
      (op : Operation) → Represents (final (try_acquire op id l)) id (admitted op c)
  unfolding try_acquire admitted
  try_acquire-Represents create_op = ground (arith, bump-Holds l.creates id c.create)
  try_acquire-Represents clone_opt =
      ground (arith, bump-Holds l.clones id c.clone, held-Holds l.expands id c.expand)
  try_acquire-Represents delete_op = ground (
    arith,
    held-Holds l.expands id c.expand,
    held-Holds l.restores id c.restore,
    lookup-insert id id (pos 1) l.deletes,
  )
  try_acquire-Represents restore_op =
      ground (arith, bump-Holds l.restores id c.restore, held-Holds l.deletes id c.delete)
  try_acquire-Represents expand_op = ground (
    arith,
    held-Holds l.deletes id c.delete,
    held-Holds l.clones id c.clone,
    held-Holds l.creates id c.create,
    lookup-insert id id (pos 1) l.expands,
  )
  try_acquire-Represents (other_op name) = r

  pub release-Represents : (op : Operation) → Represents (release op id l) id (finished op c)
  unfolding release finished
  release-Represents create_op = ground (arith, release_one-Holds l.creates id c.create)
  release-Represents delete_op = ground (arith, release_one-Holds l.deletes id c.delete)
  release-Represents clone_opt = ground (arith, release_one-Holds l.clones id c.clone)
  release-Represents restore_op = ground (arith, release_one-Holds l.restores id c.restore)
  release-Represents expand_op = ground (arith, release_one-Holds l.expands id c.expand)
  release-Represents (other_op name) = r

  -- The call succeeds exactly if the counters admit the operation.
  pub try_acquire-admit : (op : Operation) → is_ok (try_acquire op id l) ≡ is_some (admit op c)
  unfolding try_acquire admit
  try_acquire-admit create_op = refl
  try_acquire-admit clone_opt = ground (arith, held-Holds l.expands id c.expand)
  try_acquire-admit delete_op =
      ground (arith, held-Holds l.expands id c.expand, held-Holds l.restores id c.restore)
  try_acquire-admit restore_op = ground (arith, held-Holds l.deletes id c.delete)
  try_acquire-admit expand_op = ground (
    arith,
    held-Holds l.deletes id c.delete,
    held-Holds l.clones id c.clone,
    held-Holds l.creates id c.create,
  )
  try_acquire-admit (other_op name) = refl

module _ (l : OperationLock) (id j : String) (c : Counts) (ne : j ≢ id) (r : Represents l j c) where
  pub try_acquire_other : (op : Operation) → Represents (final (try_acquire op id l)) j c
  unfolding try_acquire
  try_acquire_other create_op = ground (arith, bump_other l.creates id j)
  try_acquire_other clone_opt = ground (arith, bump_other l.clones id j)
  try_acquire_other delete_op = ground (arith, lookup-insert j id (pos 1) l.deletes)
  try_acquire_other restore_op = ground (arith, bump_other l.restores id j)
  try_acquire_other expand_op = ground (arith, lookup-insert j id (pos 1) l.expands)
  try_acquire_other (other_op name) = r

  pub release_other : (op : Operation) → Represents (release op id l) j c
  unfolding release
  release_other create_op = ground (arith, release_one_other l.creates id j)
  release_other delete_op = ground (arith, release_one_other l.deletes id j)
  release_other clone_opt = ground (arith, release_one_other l.clones id j)
  release_other restore_op = ground (arith, release_one_other l.restores id j)
  release_other expand_op = ground (arith, release_one_other l.expands id j)
  release_other (other_op name) = r

pub admitted-Within :
    (op : Operation) (c : Counts) (n : ℕ) → Within n c → Within (n + 1) (admitted op c)
unfolding admitted
admitted-Within create_op c n w = ground arith
admitted-Within clone_opt c n w = ground arith
admitted-Within delete_op c n w = ground arith
admitted-Within restore_op c n w = ground arith
admitted-Within expand_op c n w = ground arith
admitted-Within (other_op name) c n w = ground arith

pub finished-Within :
    (op : Operation) (c : Counts) (n : ℕ) → Within n c → Within (n + 1) (finished op c)
unfolding finished
finished-Within create_op c n w = ground arith
finished-Within delete_op c n w = ground arith
finished-Within clone_opt c n w = ground arith
finished-Within restore_op c n w = ground arith
finished-Within expand_op c n w = ground arith
finished-Within (other_op name) c n w = ground arith
