-- ===== src/Util/OperationLock/Exclusion.antt =====
-- Any sequence of calls on an OperationLock, in the order in which the mutex admits them.
use cloudstack_csi_driver.Prelude.{
  ℕ, ◌+◌, ◌^◌, ◌<◌, String, false, ◌&&◌, List, [], ◌∷◌, ◌≡◌, arith, length, subst, ◌⊎◌, string_dec,
  ite,
}
use mathlib.Core.Logic.{if_pos, if_neg}
use cloudstack_csi_driver.Prelude.Maps.{lookup}
use cloudstack_csi_driver.Prelude.Prog.{final}
use cloudstack_csi_driver.Util.OperationLock.{
  Operation, create_op, delete_op, clone_opt, restore_op, expand_op, other_op, OperationLock,
  new_operation_lock, held, try_acquire, release,
}
use cloudstack_csi_driver.Util.OperationLock.Counters.{
  Counts, no_operation, Represents, Within, admitted, finished, held-Holds, try_acquire-Represents,
  release-Represents, try_acquire_other, release_other, admitted-Within, finished-Within,
}

pub data Call : Type 0 where
  acquires releases : Operation → String → Call

-- A refused call leaves the lock as it was.
unfoldable pub step : Call → OperationLock → OperationLock
step (acquires op id) l = final (try_acquire op id l)
step (releases op id) l = release op id l

-- The calls, the first one first.
unfoldable pub run : List Call → OperationLock → OperationLock
run [] l = l
run (c ∷ cs) l = run cs (step c l)

-- The counters of one volume under the calls: calls for other volumes do not touch them.
unfoldable pub step_counts : String → Call → Counts → Counts
step_counts j (acquires op id) c = ite (string_dec j id) (admitted op c) c
step_counts j (releases op id) c = ite (string_dec j id) (finished op c) c

unfoldable pub run_counts : String → List Call → Counts → Counts
run_counts j [] c = c
run_counts j (x ∷ xs) c = run_counts j xs (step_counts j x c)

step-Represents :
    (j : String) (x : Call) (l : OperationLock) (c : Counts) (n : ℕ)
    → n + 1 < 2 ^ 63
    → Within n c
    → Represents l j c
    → Represents (step x l) j (step_counts j x c) × Within (n + 1) (step_counts j x c)
unfolding step step_counts
step-Represents j (acquires op id) l c n small w r = elim (string_dec j id) [
  | yes e ↦ rw (if_pos _ e) (
    rw e (try_acquire-Represents l id c n small w (subst (λ k. Represents l k c) e r) op),
    admitted-Within op c n w,
  )
  | no ne ↦ rw (if_neg _ ne) (try_acquire_other l id j c ne r op, omega arith)
]
step-Represents j (releases op id) l c n small w r = elim (string_dec j id) [
  | yes e ↦ rw (if_pos _ e) (
    rw e (release-Represents l id c n small w (subst (λ k. Represents l k c) e r) op),
    finished-Within op c n w,
  )
  | no ne ↦ rw (if_neg _ ne) (release_other l id j c ne r op, omega arith)
]

run-Represents_from :
    (j : String) (xs : List Call) (l : OperationLock) (c : Counts) (n : ℕ)
    → n + length xs < 2 ^ 63
    → Within n c
    → Represents l j c
    → Represents (run xs l) j (run_counts j xs c)
unfolding run run_counts
run-Represents_from j [] l c n small w r = r
run-Represents_from j (x ∷ xs) l c n small w r =
    let next = step-Represents j x l c n (omega arith) w r in
    run-Represents_from j xs (step x l) (step_counts j x c) (n + 1) (omega arith) next.1 next.0

-- After fewer than 2^63 calls on a new lock, for any volume, the five maps hold exactly the
-- counters of that volume, which only the calls for that volume change.
pub run-Represents :
    (j : String) (xs : List Call)
    → length xs < 2 ^ 63
    → Represents (run xs new_operation_lock) j (run_counts j xs no_operation)
unfolding new_operation_lock lookup
run-Represents j xs h =
    run-Represents_from j xs new_operation_lock no_operation 0 (omega arith) (omega arith)
      (ground arith)

-- The pairs of operations that the counters keep apart.
pub record Excludes (c : Counts) : Type 0 where
  pub expand_delete : (c.expand ≡ 0) ⊎ (c.delete ≡ 0)
  pub expand_clone : (c.expand ≡ 0) ⊎ (c.clone ≡ 0)
  pub restore_delete : (c.restore ≡ 0) ⊎ (c.delete ≡ 0)

admitted-Excludes : (op : Operation) (c : Counts) → Excludes c → Excludes (admitted op c)
unfolding admitted
admitted-Excludes create_op c x = ground arith
admitted-Excludes clone_opt c x = ground arith
admitted-Excludes delete_op c x = ground arith
admitted-Excludes restore_op c x = ground arith
admitted-Excludes expand_op c x = ground arith
admitted-Excludes (other_op name) c x = x

finished-Excludes : (op : Operation) (c : Counts) → Excludes c → Excludes (finished op c)
unfolding finished
finished-Excludes create_op c x = ground arith
finished-Excludes delete_op c x = ground arith
finished-Excludes clone_opt c x = ground arith
finished-Excludes restore_op c x = ground arith
finished-Excludes expand_op c x = ground arith
finished-Excludes (other_op name) c x = x

run_counts-Excludes :
    (j : String) (xs : List Call) (c : Counts) → Excludes c → Excludes (run_counts j xs c)
unfolding run_counts step_counts
run_counts-Excludes j [] c x = x
run_counts-Excludes j (acquires op id ∷ xs) c x =
    run_counts-Excludes j xs _ (ground (arith, admitted-Excludes op c x))
run_counts-Excludes j (releases op id ∷ xs) c x =
    run_counts-Excludes j xs _ (ground (arith, finished-Excludes op c x))

-- After fewer than 2^63 calls on a new lock, no volume is held for expansion and for deletion, none
-- for expansion and for cloning, and none for restoration and for deletion.
pub run_exclusive :
    (j : String) (xs : List Call)
    → length xs < 2 ^ 63
    → let l = run xs new_operation_lock in
      ((held l.expands j && held l.deletes j) ≡ false)
      × ((held l.expands j && held l.clones j) ≡ false)
      × ((held l.restores j && held l.deletes j) ≡ false)
run_exclusive j xs h =
    let l = run xs new_operation_lock in
    let c = run_counts j xs no_operation in
    let r = run-Represents j xs h in
    let x = run_counts-Excludes j xs no_operation (omega arith) in
    ground (
      arith,
      x,
      held-Holds l.expands j c.expand r.expand_holds,
      held-Holds l.deletes j c.delete r.delete_holds,
      held-Holds l.clones j c.clone r.clone_holds,
      held-Holds l.restores j c.restore r.restore_holds,
    )
