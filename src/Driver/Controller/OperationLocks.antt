-- ===== src/Driver/Controller/OperationLocks.antt =====
-- What `DeleteVolume` and `ControllerExpandVolume` leave of the locks of the controller.
mod Frame
use cloudstack_csi_driver.Prelude.{
  Option-cases, inl, inr, ℕ, ◌+◌, ◌^◌, ◌<◌, false, String, Option, none, some, ◌≡◌, ◌≢◌, refl,
  arith, Bool-cases, string_dec, subst, sym, ap, ◌∙◌,
}
use cloudstack_csi_driver.Prelude.Int.{ℤ}
use cloudstack_csi_driver.Prelude.Prog.{Outcome, ok, err, final, Outcome-cases}
use cloudstack_csi_driver.Util.VolumeLocks.{Sets}
use cloudstack_csi_driver.Util.VolumeLocks
use cloudstack_csi_driver.Util.OperationLock.{
  get_delete_lock, get_expand_lock, release_expand_lock, delete_op, expand_op, Operation,
  OperationLock, LockError, try_acquire, release, release_delete_lock,
}
use cloudstack_csi_driver.Util.OperationLock.Counters.{
  Counts, Represents, Within, admit, admitted, finished, is_ok, is_some, admitted-Within,
  try_acquire-Represents, try_acquire-admit, release-Represents, try_acquire_other, release_other,
}
use cloudstack_csi_driver.Util.Gb.{round_up_bytes_to_gb}
use cloudstack_csi_driver.Cloud.{Connector}
use cloudstack_csi_driver.Driver.Csi.{Failure, CapacityRange}
use cloudstack_csi_driver.Driver.Controller.{
  Server, Handler, locked, unlock_operation, unlock_volume, with_operation_lock, with_volume_lock,
}
use cloudstack_csi_driver.Driver.Controller.Volumes.{
  delete_volume, delete_locked, delete_call, expand_call, controller_expand_volume, expand_locked,
  ControllerExpandVolumeRequest,
}
use cloudstack_csi_driver.Driver.Controller.Locks.{KeepsLocks, with_volume_lock-has}
use cloudstack_csi_driver.Driver.Controller.OperationLocks.Frame.{
  with_operation_lock-Represents, with_volume_lock-Represents, locked-volume_locks,
}

delete_again : (c : Counts) → c.delete ≡ 0 → finished delete_op (admitted delete_op c) ≡ c
unfolding finished admitted
delete_again c h = ground arith

expand_again : (c : Counts) → c.expand ≡ 0 → finished expand_op (admitted expand_op c) ≡ c
unfolding finished admitted
expand_again c h = ground arith

module _ (L : Sets) (C : Connector) where
  delete_call-KeepsLocks : (id : String) → KeepsLocks (delete_call L C id)
  unfolding delete_call
  delete_call-KeepsLocks id s = ground arith

  expand_call-KeepsLocks :
      (req : ControllerExpandVolumeRequest) (size : ℤ) → KeepsLocks (expand_call L C req size)
  unfolding expand_call
  expand_call-KeepsLocks req size s = ground arith

  delete_locked-volume_locks :
      (id : String) (s : Server L C)
      → (final (delete_locked L C id s)).volume_locks ≡ s.volume_locks
  unfolding delete_locked with_operation_lock
  delete_locked-volume_locks id s =
      locked-volume_locks L C (release_delete_lock id) (delete_call L C id) s
        (get_delete_lock id s.operation_locks) (delete_call-KeepsLocks id)

  delete_locked-Represents :
      (id j : String) (s : Server L C) (c : Counts) (n : ℕ)
      → n + 2 < 2 ^ 63
      → Within n c
      → Represents s.operation_locks j c
      → c.delete ≡ 0
      → Represents (final (delete_locked L C id s)).operation_locks j c
  unfolding delete_locked get_delete_lock release_delete_lock
  delete_locked-Represents id j s c n small w r none_going =
      with_operation_lock-Represents L C delete_op id (delete_call L C id)
        (delete_call-KeepsLocks id) s n small j c w r (delete_again c none_going)

  expand_locked-volume_locks :
      (req : ControllerExpandVolumeRequest) (range : CapacityRange) (s : Server L C)
      → (final (expand_locked L C req range s)).volume_locks ≡ s.volume_locks
  unfolding expand_locked with_operation_lock
  expand_locked-volume_locks req range s =
      elim (Outcome-cases (C.get_volume_by_id req.volume_id s.cloud)) [
        | inl (vol, c, e) ↦
            let s' = record s { cloud = c } in
            let size = round_up_bytes_to_gb range.required_bytes in
            ground (
              arith,
              locked-volume_locks L C (release_expand_lock req.volume_id) (expand_call L C req size)
                  s' (get_expand_lock req.volume_id s'.operation_locks)
                  (expand_call-KeepsLocks req size),
            )
        | inr (x, c, e) ↦ ground arith
      ]

  expand_locked-Represents :
      (req : ControllerExpandVolumeRequest) (range : CapacityRange) (j : String) (s : Server L C)
      (c : Counts) (n : ℕ)
      → n + 2 < 2 ^ 63
      → Within n c
      → Represents s.operation_locks j c
      → c.expand ≡ 0
      → Represents (final (expand_locked L C req range s)).operation_locks j c
  unfolding expand_locked get_expand_lock release_expand_lock
  expand_locked-Represents req range j s k n small w r none_going =
      elim (Outcome-cases (C.get_volume_by_id req.volume_id s.cloud)) [
        | inl (vol, c, e) ↦
            let s' = record s { cloud = c } in
            let size = round_up_bytes_to_gb range.required_bytes in
            ground (
              arith,
              with_operation_lock-Represents L C expand_op req.volume_id (expand_call L C req size)
                  (expand_call-KeepsLocks req size) s' n small j k w r (expand_again k none_going),
            )
        | inr (x, c, e) ↦ ground arith
      ]

  -- If the five maps hold counters of a volume that are at most n, with n + 2 < 2^63, and no
  -- deletion of that volume goes on, then `DeleteVolume`, called on any volume, leaves that volume
  -- locked or free as it was and each of its operation counters as it was.
  pub delete_volume-locks :
      (id j : String) (s : Server L C) (c : Counts) (n : ℕ)
      → n + 2 < 2 ^ 63
      → Within n c
      → Represents s.operation_locks j c
      → c.delete ≡ 0
      → (L.has (final (delete_volume L C id s)).volume_locks j ≡ L.has s.volume_locks j)
        × Represents (final (delete_volume L C id s)).operation_locks j c
  unfolding delete_volume
  delete_volume-locks id j s c n small w r none_going = elim (string_dec id "") [
    | yes e ↦ ground arith
    | no ne ↦ (
      ground (
        arith,
        with_volume_lock-has L C id (delete_locked L C id) s j (delete_locked-volume_locks id),
      ),
      ground (
        arith,
        with_volume_lock-Represents L C id (delete_locked L C id) s j c
            (λ (locks : L.Set).
              delete_locked-Represents id j (record s { volume_locks = locks }) c n small w r
                none_going)
            r,
      ),
    )
  ]

  -- If the five maps hold counters of a volume that are at most n, with n + 2 < 2^63, and no
  -- expansion of that volume goes on, then `ControllerExpandVolume`, called on any request, leaves
  -- that volume locked or free as it was and each of its operation counters as it was.
  pub controller_expand_volume-locks :
      (req : ControllerExpandVolumeRequest) (j : String) (s : Server L C) (c : Counts) (n : ℕ)
      → n + 2 < 2 ^ 63
      → Within n c
      → Represents s.operation_locks j c
      → c.expand ≡ 0
      → (L.has (final (controller_expand_volume L C req s)).volume_locks j ≡ L.has s.volume_locks j)
        × Represents (final (controller_expand_volume L C req s)).operation_locks j c
  unfolding controller_expand_volume
  controller_expand_volume-locks req j s c n small w r none_going =
      elim (Option-cases req.capacity_range) [
        | inl e ↦ rw (e, controller_expand_volume) (ground arith, ground arith)
        | inr (range, e) ↦
            rw (e, controller_expand_volume)
              (
                ground (
                  arith,
                  with_volume_lock-has L C req.volume_id (expand_locked L C req range) s j
                      (expand_locked-volume_locks req range),
                ),
                ground (
                  arith,
                  with_volume_lock-Represents L C req.volume_id (expand_locked L C req range) s j c
                      (λ (x : L.Set).
                        expand_locked-Represents req range j (record s { volume_locks = x }) c n
                          small w r none_going)
                      r,
                ),
              )
      ]
