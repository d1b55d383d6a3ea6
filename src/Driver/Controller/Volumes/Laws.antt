-- ===== src/Driver/Controller/Volumes/Laws.antt =====
-- What `ControllerExpandVolume` answers.
use cloudstack_csi_driver.Prelude.{
  Bool, not, some, ◌≡◌, refl, arith, Option-cases, Bool-cases, inl, inr, false, ◌&&◌, ◌+◌, ◌-◌, ◌/◌,
  ◌^◌,
}
use cloudstack_csi_driver.Prelude.Int.{ℤ, pos, ltb_ℤ}
use cloudstack_csi_driver.Prelude.Prog.{Outcome, ok, err, Outcome-cases}
use cloudstack_csi_driver.Util.VolumeLocks.{Sets}
use cloudstack_csi_driver.Util.OperationLock.{
  OperationLock, LockError, get_expand_lock, release_expand_lock,
}
use cloudstack_csi_driver.Util.Gb.{round_up_bytes_to_gb, giga_bytes_to_bytes}
use cloudstack_csi_driver.Util.Gb.Laws.{round_up_pos, giga_bytes_pos}
use cloudstack_csi_driver.Cloud.{Connector}
use cloudstack_csi_driver.Driver.Csi.{CapacityRange, Failure}
use cloudstack_csi_driver.Driver.Suitable.Laws.{InRange}
use cloudstack_csi_driver.Driver.Controller.{
  Server, Handler, locked, with_operation_lock, unlock_operation,
}
use cloudstack_csi_driver.Driver.Controller.Create.Laws.{
  Answers, IsModest, with_volume_lock-Answers,
}
use cloudstack_csi_driver.Driver.Controller.Volumes.{
  ControllerExpandVolumeRequest, ControllerExpandVolumeResponse, is_block, expand_call,
  expand_locked, controller_expand_volume,
}

-- The answer keeps to the capacity range of the request, and asks for an expansion on the node
-- unless the volume is a block device.
pub record Expands (req : ControllerExpandVolumeRequest) (resp : ControllerExpandVolumeResponse)
    : Type 0 where
  pub in_range : InRange resp.capacity_bytes req.capacity_range
  pub on_node : resp.node_expansion_required ≡ not (is_block req.volume_capability)

abbrev over_limit : CapacityRange → Bool
over_limit range =
    ltb_ℤ (pos 0) range.limit_bytes
    && ltb_ℤ range.limit_bytes (giga_bytes_to_bytes (round_up_bytes_to_gb range.required_bytes))

module _ (L : Sets) (C : Connector) where
  unlock_operation-Answers :
      {A : Type 0} (P : A → Type 0) (f : OperationLock → OperationLock)
      (o : Outcome Failure (Server L C) A)
      → Answers P o
      → Answers P (unlock_operation f o)
  unlock_operation-Answers P f (ok a t) h = h
  unlock_operation-Answers P f (err e t) h = tt

  locked-Answers :
      {A : Type 0} (P : A → Type 0) (f : OperationLock → OperationLock) (body : Handler L C A)
      (s : Server L C) (o : Outcome LockError OperationLock (Unit {0}))
      → ((t : Server L C) → Answers P (body t))
      → Answers P (locked f body s o)
  locked-Answers P f body s (ok u l) h =
      unlock_operation-Answers P f (body (record s { operation_locks = l })) (h _)
  locked-Answers P f body s (err e l) h = tt

  expand_call-Expands :
      (req : ControllerExpandVolumeRequest) (size : ℤ) (s : Server L C)
      → InRange (giga_bytes_to_bytes size) req.capacity_range
      → Answers (Expands req) (expand_call L C req size s)
  unfolding expand_call
  expand_call-Expands req size s r =
      elim (Outcome-cases (C.expand_volume req.volume_id size s.cloud)) [
        | inl (u, c, e) ↦ rw (e, Answers) (record { in_range = r; on_node = refl })
        | inr (x, c, e) ↦ rw (e, Answers) tt
      ]

  -- The size that passes the check of the limit.
  rounded-InRange :
      (range : CapacityRange)
      → IsModest (some range)
      → over_limit range ≡ false
      → InRange (giga_bytes_to_bytes (round_up_bytes_to_gb range.required_bytes)) (some range)
  rounded-InRange range (n, r, small) h =
      ground (arith, round_up_pos n, giga_bytes_pos ((n + (2 ^ 30 - 1)) / 2 ^ 30))

  expand_locked-Expands :
      (req : ControllerExpandVolumeRequest) (range : CapacityRange) (s : Server L C)
      → req.capacity_range ≡ some range
      → IsModest (some range)
      → Answers (Expands req) (expand_locked L C req range s)
  unfolding expand_locked with_operation_lock
  expand_locked-Expands req range s e m = elim (Bool-cases (over_limit range)) [
    | inl over ↦ rw (over, Answers) tt
    | inr under ↦
        rw (under, Answers)
          (elim (Outcome-cases (C.get_volume_by_id req.volume_id s.cloud)) [
            | inl (vol, c, found) ↦
                let size = round_up_bytes_to_gb range.required_bytes in
                let s' = record s { cloud = c } in
                rw (found, Answers)
                  (locked-Answers (Expands req) (release_expand_lock req.volume_id)
                    (expand_call L C req size) s' (get_expand_lock req.volume_id s.operation_locks)
                    (λ t. expand_call-Expands req size t (rw e (rounded-InRange range m under))))
            | inr (x, c, lost) ↦ rw (lost, Answers) (ground arith)
          ])
  ]

  -- Whatever the connector answers: if `ControllerExpandVolume` succeeds on a request whose required
  -- bytes are between 0 and 2^63 - 2^30, then the size that it answers lies in the requested range,
  -- and it asks for an expansion on the node unless the capability of the request is that of a block
  -- device.
  pub controller_expand_volume-Expands :
      (req : ControllerExpandVolumeRequest) (s : Server L C)
      → IsModest req.capacity_range
      → Answers (Expands req) (controller_expand_volume L C req s)
  unfolding controller_expand_volume
  controller_expand_volume-Expands req s m = elim (Option-cases req.capacity_range) [
    | inl e ↦ ground arith
    | inr (range, e) ↦
        let rest =
          with_volume_lock-Answers L C (Expands req) req.volume_id (expand_locked L C req range) s
            (λ (t : Server L C). expand_locked-Expands req range t e (rw e at m)) in
        ground (arith, rest)
  ]
