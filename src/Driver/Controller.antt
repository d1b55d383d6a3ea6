-- ===== src/Driver/Controller.antt =====
-- The state of `controllerServer` in pkg/driver/controller.go, and the steps that its handlers
-- share: a call of the connector, and a lock that is held until the handler returns.
pub mod Create
pub mod Volumes
pub mod Publish
pub mod Snapshots
pub mod Locks
pub mod OperationLocks
use cloudstack_csi_driver.Prelude.{Bool, true, false, String, if◌then◌else◌}
use cloudstack_csi_driver.Prelude.Prog.{Outcome, ok, err, Prog, fail, pure}
use cloudstack_csi_driver.Util.VolumeLocks.{Sets}
use cloudstack_csi_driver.Util.VolumeLocks
use cloudstack_csi_driver.Util.OperationLock.{OperationLock, LockError, new_operation_lock}
use cloudstack_csi_driver.Cloud.{Connector, Err, is_not_found}
use cloudstack_csi_driver.Driver.Csi.{Code, Failure, status, aborted, internal, not_found}

-- The locks of the server, and the state of the CloudStack that the connector talks to.
pub record Server (L : Sets) (C : Connector) : Type 0 where
  pub volume_locks : L.Set
  pub operation_locks : OperationLock
  pub cloud : C.State

-- What a call of the connector returned.
pub data Try (A : Type 0) : Type 0 where
  done : A → Try A
  failed : Err → Try A

abbrev pub Handler : Sets → Connector → Type 0 → Type 0
Handler L C A = Prog Failure (Server L C) A

module _ {L : Sets} {C : Connector} where
  abbrev pub returned :
      {A : Type 0} → Server L C → Outcome Err C.State A → Outcome Failure (Server L C) (Try A)
  returned s (ok a c) = ok (done a) (record s { cloud = c })
  returned s (err e c) = ok (failed e) (record s { cloud = c })

  abbrev pub call : {A : Type 0} → Prog Err C.State A → Handler L C (Try A)
  call op s = returned s (op s.cloud)

  -- `if errors.Is(err, ErrNotFound) { NotFound } else if err != nil { Internal }`
  abbrev pub or_missing : {A : Type 0} → Try A → Handler L C A
  or_missing (done a) s = ok a s
  or_missing (failed e) s = err (status (if is_not_found e then not_found else internal)) s

  -- `if err != nil { Internal }`
  abbrev pub or_internal : {A : Type 0} → Try A → Handler L C A
  or_internal (done a) s = ok a s
  or_internal (failed e) s = err (status internal) s

  -- The deferred release of a volume lock, on every way out of the handler.
  abbrev pub unlock_volume :
      {A : Type 0} → String → Outcome Failure (Server L C) A → Outcome Failure (Server L C) A
  unlock_volume id (ok a s) =
      ok a (record s { volume_locks = VolumeLocks.release L id s.volume_locks })
  unlock_volume id (err e s) =
      err e (record s { volume_locks = VolumeLocks.release L id s.volume_locks })

  -- `TryAcquire`, or the answer Aborted; then the rest of the handler under the lock.
  unfoldable pub with_volume_lock : {A : Type 0} → String → Handler L C A → Handler L C A
  with_volume_lock id body s =
      let r = VolumeLocks.try_acquire L id s.volume_locks in
      let s' = record s { volume_locks = r.1 } in
      if r.0 then unlock_volume id (body s') else err (status aborted) s'

  abbrev pub unlock_operation :
      {A : Type 0}
      → (OperationLock → OperationLock)
      → Outcome Failure (Server L C) A
      → Outcome Failure (Server L C) A
  unlock_operation release (ok a s) =
      ok a (record s { operation_locks = release s.operation_locks })
  unlock_operation release (err e s) =
      err e (record s { operation_locks = release s.operation_locks })

  abbrev pub locked :
      {A : Type 0}
      → (OperationLock → OperationLock)
      → Handler L C A
      → Server L C
      → Outcome LockError OperationLock (Unit {0})
      → Outcome Failure (Server L C) A
  locked release body s (ok _ l) =
      unlock_operation release (body (record s { operation_locks = l }))
  locked release body s (err e l) = err (status aborted) (record s { operation_locks = l })

  -- The same with a lock of an operation.
  unfoldable pub with_operation_lock :
      {A : Type 0}
      → Prog LockError OperationLock (Unit {0})
      → (OperationLock → OperationLock)
      → Handler L C A
      → Handler L C A
  with_operation_lock acquire release body s = locked release body s (acquire s.operation_locks)

module _ (L : Sets) (C : Connector) where
  -- `NewControllerServer`
  unfoldable pub new_controller_server : C.State → Server L C
  new_controller_server cloud = record {
    volume_locks = VolumeLocks.new_volume_locks L;
    operation_locks = new_operation_lock;
    cloud = cloud;
  }
