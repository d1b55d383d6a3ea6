-- ===== src/Driver/Controller/Locks.antt =====
-- What the handlers of the controller leave of its locks.
use cloudstack_csi_driver.Prelude.{ℕ, String, ◌≡◌, arith, Option-cases, inl, inr}
use cloudstack_csi_driver.Prelude.Maps.{Map}
use cloudstack_csi_driver.Prelude.Prog.{final}
use cloudstack_csi_driver.Util.VolumeLocks.{Sets}
use cloudstack_csi_driver.Util.VolumeLocks
use cloudstack_csi_driver.Cloud.{Connector}
use cloudstack_csi_driver.Driver.Csi.{CreateVolumeRequest, value, disk_offering_key}
use cloudstack_csi_driver.Driver.Controller.{Server, Handler, with_volume_lock}
use cloudstack_csi_driver.Driver.Controller.Create.{
  provision, existing_volume, create_from_snapshot, choose_zone, create_volume, new_volume,
  create_blank,
}

-- A program that changes no lock.
abbrev pub KeepsLocks : {L : Sets} {C : Connector} {A : Type 0} → Handler L C A → Type 0
KeepsLocks {L} {C} m =
    (s : Server L C)
    → ((final (m s)).volume_locks ≡ s.volume_locks)
      × ((final (m s)).operation_locks ≡ s.operation_locks)

module _ (L : Sets) (C : Connector) where
  provision-KeepsLocks :
      (draw : ℕ) (req : CreateVolumeRequest) (ps : Map String) (offering : String)
      → KeepsLocks (provision L C draw req ps offering)
  unfolding provision existing_volume new_volume create_from_snapshot create_blank choose_zone
  provision-KeepsLocks draw req ps offering s = ground arith

  -- The lock that a handler takes on a volume is given back on every way out.
  pub with_volume_lock-has :
      {A : Type 0} (id : String) (body : Handler L C A) (s : Server L C) (j : String)
      → ((t : Server L C) → (final (body t)).volume_locks ≡ t.volume_locks)
      → L.has (final (with_volume_lock id body s)).volume_locks j ≡ L.has s.volume_locks j
  unfolding with_volume_lock VolumeLocks.try_acquire VolumeLocks.release
  with_volume_lock-has id body s j k = ground (
    arith,
    k (record s { volume_locks = L.insert s.volume_locks id }),
    L.has-delete (L.insert s.volume_locks id) id j,
    L.has-insert s.volume_locks id j,
  )

  with_volume_lock-operations :
      {A : Type 0} (id : String) (body : Handler L C A) (s : Server L C)
      → KeepsLocks body
      → (final (with_volume_lock id body s)).operation_locks ≡ s.operation_locks
  unfolding with_volume_lock VolumeLocks.try_acquire
  with_volume_lock-operations id body s k =
      ground (arith, k (record s { volume_locks = L.insert s.volume_locks id }))

  -- For every request, every answer of the connector and every outcome, `CreateVolume` leaves each
  -- volume locked or free as it was, and the operation locks as they were.
  pub create_volume-locks :
      (draw : ℕ) (req : CreateVolumeRequest) (s : Server L C) (j : String)
      → (L.has (final (create_volume L C draw req s)).volume_locks j ≡ L.has s.volume_locks j)
        × ((final (create_volume L C draw req s)).operation_locks ≡ s.operation_locks)
  unfolding create_volume
  create_volume-locks draw req s j = elim (Option-cases req.parameters) [
    | inl e ↦ rw (e, create_volume) (ground arith)
    | inr (ps, e) ↦
        let body = provision L C draw req ps (value disk_offering_key ps) in
        rw (e, create_volume)
          (ground (
            arith,
            with_volume_lock-has req.name body s j
                (λ (t : Server L C). (provision-KeepsLocks draw req ps _ t).0),
            with_volume_lock-operations req.name body s (provision-KeepsLocks draw req ps _),
          ))
  ]
