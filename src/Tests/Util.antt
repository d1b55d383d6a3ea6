-- ===== src/Tests/Util.antt =====
-- Runs of the theorems on sizes and locks.
use cloudstack_csi_driver.Prelude.{
  ◌≡◌, true, false, [], ◌∷◌, arith, refl, if◌then◌else◌, ltb, ◌&&◌, List, ℕ, ◌<◌, ◌^◌,
}
use cloudstack_csi_driver.Util.OperationLock.{
  delete_op, clone_opt, expand_op, new_operation_lock, held, get_delete_lock,
  try_acquire as acquire_operation,
}
use cloudstack_csi_driver.Util.OperationLock.Counters.{no_operation, Represents, is_ok}
use cloudstack_csi_driver.Util.OperationLock.Exclusion.{
  acquires, releases, run, run_counts, run-Represents, run_exclusive, Call,
}
use cloudstack_csi_driver.Util.OperationLock.Sharing.{
  shared, held_counted, held_uncounted, delete_despite_clones, locks_of, replicate,
}
use cloudstack_csi_driver.Util.VolumeLocks.Exclusion.{
  System, start, Reach, here, next, acquires as takes, Reach-holding, holding,
}
use cloudstack_csi_driver.Util.VolumeLocks.{try_acquire}
use cloudstack_csi_driver.Tests.{sets}

abbrev calls : List Call
calls =
    acquires clone_opt "v"
    ∷ acquires expand_op "v"
    ∷ acquires delete_op "v"
    ∷ releases clone_opt "v"
    ∷ acquires expand_op "w"
    ∷ []

run-Represents_example :
    Represents (run calls new_operation_lock) "v" (run_counts "v" calls no_operation)
run-Represents_example = run-Represents "v" calls (omega arith)

run_exclusive_example :
    let l = run calls new_operation_lock in
    ((held l.expands "v" && held l.deletes "v") ≡ false)
    × ((held l.expands "v" && held l.clones "v") ≡ false)
    × ((held l.restores "v" && held l.deletes "v") ≡ false)
run_exclusive_example = run_exclusive "v" calls (omega arith)

held_counted_example :
    held (locks_of clone_opt (run (shared clone_opt "v" 3 2) new_operation_lock)) "v" ≡ ltb 2 3
held_counted_example = held_counted clone_opt "v" 3 2 tt (omega arith)

held_uncounted_example :
    ((k : ℕ)
      → k < 2 ^ 63
      → is_ok (
          acquire_operation delete_op "v"
            (run (replicate k (acquires delete_op "v")) new_operation_lock))
        ≡ true)
    × (held (locks_of delete_op (run (shared delete_op "v" 3 1) new_operation_lock)) "v" ≡ false)
held_uncounted_example = held_uncounted delete_op "v" 2 tt (omega arith)

delete_despite_clones_example :
    let l = run (shared clone_opt "v" 2 0) new_operation_lock in
    (held l.clones "v" ≡ ltb 0 2) × (is_ok (get_delete_lock "v" l) ≡ true)
delete_despite_clones_example = delete_despite_clones "v" 2 (omega arith)

abbrev one_holder : System sets
one_holder = record { holders = (1, "v") ∷ []; locks = "v" ∷ [] }

one_holder-Reach : Reach sets one_holder
unfolding start try_acquire
one_holder-Reach = next here (takes 1 "v" refl refl refl)

Reach-holding_example :
    holding "v" one_holder.holders ≡ (if sets.has one_holder.locks "v" then 1 else 0)
Reach-holding_example = Reach-holding sets "v" one_holder-Reach
