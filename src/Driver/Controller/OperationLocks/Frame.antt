-- ===== src/Driver/Controller/OperationLocks/Frame.antt =====
-- The locks of the controller around the body of a handler.
use cloudstack_csi_driver.Prelude.{
  inl, inr, ℕ, ◌+◌, ◌^◌, ◌<◌, false, String, Option, none, some, ◌≡◌, ◌≢◌, refl, arith, Bool-cases,
  string_dec, subst, sym, ap, ◌∙◌,
}
use cloudstack_csi_driver.Prelude.Prog.{Outcome, ok, err, final}
use cloudstack_csi_driver.Util.VolumeLocks.{Sets}
use cloudstack_csi_driver.Util.VolumeLocks
use cloudstack_csi_driver.Util.OperationLock.{
  Operation, OperationLock, LockError, try_acquire, release,
}
use cloudstack_csi_driver.Util.OperationLock.Counters.{
  Counts, Represents, Within, admit, admitted, finished, is_ok, is_some, admitted-Within,
  try_acquire-Represents, try_acquire-admit, release-Represents, try_acquire_other, release_other,
}
use cloudstack_csi_driver.Cloud.{Connector}
use cloudstack_csi_driver.Driver.Csi.{Failure}
use cloudstack_csi_driver.Driver.Controller.{
  Server, Handler, locked, unlock_operation, unlock_volume, with_operation_lock, with_volume_lock,
}
use cloudstack_csi_driver.Driver.Controller.Locks.{KeepsLocks}

module _ (L : Sets) (C : Connector) {A : Type 0} where
  final-unlock :
      (f : OperationLock → OperationLock) (o : Outcome Failure (Server L C) A)
      → (final (unlock_operation f o)).operation_locks ≡ f (final o).operation_locks
  final-unlock f (ok a s) = refl
  final-unlock f (err e s) = refl

module _ (L : Sets) (C : Connector) {A : Type 0} (op : Operation) (id : String)
    (body : Handler L C A) (keeps : KeepsLocks body) (s : Server L C) (n : ℕ)
    (small : n + 2 < 2 ^ 63) where
  unlocked :
      (l : OperationLock)
      → (final (
          unlock_operation
            (release op id)
            (body (record s { operation_locks = l })))).operation_locks
        ≡ release op id l
  unlocked l =
      final-unlock L C (release op id) (body (record s { operation_locks = l }))
      ∙ ap (release op id) (keeps (record s { operation_locks = l })).1

  -- The operation lock that a handler takes on a volume is given back on every way out.
  locked-Represents :
      (c : Counts) (o : Outcome LockError OperationLock (Unit {0}))
      → try_acquire op id s.operation_locks ≡ o
      → Within n c
      → Represents s.operation_locks id c
      → finished op (admitted op c) ≡ c
      → Represents (final (locked (release op id) body s o)).operation_locks id c
  unfolding admitted
  locked-Represents c (ok u l) e w r alone =
      let taken : Represents l id (admitted op c) =
        subst (λ x. Represents (final x) id (admitted op c)) e
          (try_acquire-Represents s.operation_locks id c n (omega arith) w r op) in
      let given : Represents (release op id l) id c =
        subst (Represents (release op id l) id) alone (
          release-Represents l id (admitted op c) (n + 1) (omega arith) (admitted-Within op c n w)
            taken op) in
      subst (λ x. Represents x id c) (sym (unlocked l)) given
  locked-Represents c (err x l) e w r alone =
      subst (Represents l id) (refused_admitted (admit op c) refl) (
        subst (λ y. Represents (final y) id (admitted op c)) e
          (try_acquire-Represents s.operation_locks id c n (omega arith) w r op))
    where
      refused : is_some (admit op c) ≡ false
      refused = sym (try_acquire-admit s.operation_locks id c n (omega arith) w r op) ∙ ap is_ok e

      refused_admitted : (a : Option Counts) → admit op c ≡ a → admitted op c ≡ c
      refused_admitted none q = rw (q, admitted)
      refused_admitted (some c') q = cc (refused, ap is_some q)

  locked_other :
      (j : String) (c : Counts) (o : Outcome LockError OperationLock (Unit {0}))
      → try_acquire op id s.operation_locks ≡ o
      → j ≢ id
      → Represents s.operation_locks j c
      → Represents (final (locked (release op id) body s o)).operation_locks j c
  locked_other j c (ok u l) e ne r =
      let taken : Represents l j c =
        subst (λ x. Represents (final x) j c) e
          (try_acquire_other s.operation_locks id j c ne r op) in
      subst (λ x. Represents x j c) (sym (unlocked l)) (release_other l id j c ne taken op)
  locked_other j c (err x l) e ne r =
      subst (λ y. Represents (final y) j c) e (try_acquire_other s.operation_locks id j c ne r op)

  pub with_operation_lock-Represents :
      (j : String) (c : Counts)
      → Within n c
      → Represents s.operation_locks j c
      → finished op (admitted op c) ≡ c
      → Represents
          (final (with_operation_lock (try_acquire op id) (release op id) body s)).operation_locks
          j
          c
  unfolding with_operation_lock
  with_operation_lock-Represents j c w r alone = elim (string_dec j id) [
    | yes same ↦
        rw same
          (locked-Represents c (try_acquire op id s.operation_locks) refl w (rw same at r) alone)
    | no ne ↦ locked_other j c (try_acquire op id s.operation_locks) refl ne r
  ]

-- Volume locks are the part of the state that an operation lock leaves alone.
module _ (L : Sets) (C : Connector) {A : Type 0} where
  unlock-volume_locks :
      (f : OperationLock → OperationLock) (o : Outcome Failure (Server L C) A)
      → (final (unlock_operation f o)).volume_locks ≡ (final o).volume_locks
  unlock-volume_locks f (ok a s) = refl
  unlock-volume_locks f (err e s) = refl

  pub locked-volume_locks :
      (f : OperationLock → OperationLock) (body : Handler L C A) (s : Server L C)
      (o : Outcome LockError OperationLock (Unit {0}))
      → KeepsLocks body
      → (final (locked f body s o)).volume_locks ≡ s.volume_locks
  locked-volume_locks f body s (ok u l) k =
      unlock-volume_locks f (body (record s { operation_locks = l }))
      ∙ (k (record s { operation_locks = l })).0
  locked-volume_locks f body s (err e l) k = refl

  unlock_volume-operation_locks :
      (id : String) (o : Outcome Failure (Server L C) A)
      → (final (unlock_volume id o)).operation_locks ≡ (final o).operation_locks
  unlock_volume-operation_locks id (ok a s) = refl
  unlock_volume-operation_locks id (err e s) = refl

  -- A lock on a volume changes no operation lock.
  pub with_volume_lock-Represents :
      (id : String) (body : Handler L C A) (s : Server L C) (j : String) (c : Counts)
      → ((locks : L.Set)
          → Represents (final (body (record s { volume_locks = locks }))).operation_locks j c)
      → Represents s.operation_locks j c
      → Represents (final (with_volume_lock id body s)).operation_locks j c
  unfolding with_volume_lock VolumeLocks.try_acquire
  with_volume_lock-Represents id body s j c h r = elim (Bool-cases (L.has s.volume_locks id)) [
    | inl taken ↦ rw (taken, with_volume_lock, VolumeLocks.try_acquire) r
    | inr free ↦
        rw (free, with_volume_lock, VolumeLocks.try_acquire)
          (subst (λ x. Represents x j c)
            (sym (
              unlock_volume-operation_locks id
                (body (record s { volume_locks = L.insert s.volume_locks id }))))
            (h (L.insert s.volume_locks id)))
  ]
