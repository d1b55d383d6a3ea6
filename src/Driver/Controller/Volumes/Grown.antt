-- ===== src/Driver/Controller/Volumes/Grown.antt =====
-- `ControllerExpandVolume` of pkg/driver/controller.go on the fake connector.
use cloudstack_csi_driver.Prelude.{
  String, false, some, ◌≡◌, ◌=?◌, refl, arith, Option-cases, Bool-cases, inl, inr, if◌then◌else◌,
}
use cloudstack_csi_driver.Prelude.Int.{ℤ, ltb_ℤ}
use cloudstack_csi_driver.Prelude.Maps.{lookup, lookup-insert}
use cloudstack_csi_driver.Prelude.Prog.{ok, Outcome-cases}
use cloudstack_csi_driver.Util.Gb.{giga_bytes_to_bytes, round_up_bytes_to_gb}
use cloudstack_csi_driver.Util.VolumeLocks.{Sets}
use cloudstack_csi_driver.Util.OperationLock.{
  OperationLock, get_expand_lock, release_expand_lock, LockError,
}
use cloudstack_csi_driver.Cloud.{Volume, Connector}
use cloudstack_csi_driver.Cloud.Fake.{Supply, FakeConnector, fake_connector}
use cloudstack_csi_driver.Cloud.Fake
use cloudstack_csi_driver.Driver.Csi.{CapacityRange}
use cloudstack_csi_driver.Driver.Controller.{Server, Handler, with_operation_lock, Outcome}
use cloudstack_csi_driver.Driver.Controller.Create.Twice.{with_volume_lock-ok}
use cloudstack_csi_driver.Driver.Controller.Volumes.{
  ControllerExpandVolumeRequest, ControllerExpandVolumeResponse, controller_expand_volume,
  expand_locked, expand_call,
}

module _ (L : Sets) (C : Connector) {A : Type 0} where
  -- A handler that succeeds under an operation lock, taken apart.
  with_operation_lock-ok :
      (acquire : OperationLock → Outcome LockError OperationLock (Unit {0}))
      (release : OperationLock → OperationLock) (body : Handler L C A) (s t : Server L C) (a : A)
      → with_operation_lock acquire release body s ≡ ok a t
      → (l : OperationLock) × (u : Server L C) × (body (record s { operation_locks = l }) ≡ ok a u)
        × (t.cloud ≡ u.cloud)
  unfolding with_operation_lock
  with_operation_lock-ok acquire release body s t a h =
      elim (Outcome-cases (acquire s.operation_locks)) [
        | inr (x, l, e) ↦ absurd (ground arith)
        | inl (_, l, e) ↦ elim (Outcome-cases (body (record s { operation_locks = l }))) [
          | inr (x, u, f) ↦ absurd (ground arith)
          | inl (b, u, f) ↦ (l, u, ground arith, ground arith)
        ]
      ]

-- The volume is there before and after, with the capacity if that is more than it had, and no other
-- volume changes.
pub record Grown (id : String) (bytes : ℤ) (c c' : FakeConnector) : Type 0 where
  pub before : Volume
  pub after : Volume
  pub was : lookup id c.volumes_by_id ≡ some before
  pub is : lookup id c'.volumes_by_id ≡ some after
  pub size : after.size ≡ (if ltb_ℤ before.size bytes then bytes else before.size)
  pub name : after.name ≡ before.name
  pub others :
      (k : String) → (k =? id) ≡ false → lookup k c'.volumes_by_id ≡ lookup k c.volumes_by_id

module _ (L : Sets) (U : Supply) where
  expand_call-Grown :
      (req : ControllerExpandVolumeRequest) (size : ℤ) (s t : Server L (fake_connector U))
      (resp : ControllerExpandVolumeResponse)
      → expand_call L (fake_connector U) req size s ≡ ok resp t
      → Grown req.volume_id resp.capacity_bytes s.cloud t.cloud
  unfolding expand_call Fake.expand_volume giga_bytes_to_bytes
  expand_call-Grown req size s t resp h =
      elim (Option-cases (lookup req.volume_id s.cloud.volumes_by_id)) [
        | inl gone ↦ absurd (ground arith)
        | inr (vol, there) ↦
            let bytes = giga_bytes_to_bytes size in
            elim (Bool-cases (ltb_ℤ vol.size bytes)) [
              | inl less ↦
                  let vol' = record vol { size = bytes } in
                  record {
                    before = vol;
                    after = vol';
                    was = there;
                    is = ground (
                      arith,
                      lookup-insert req.volume_id req.volume_id vol' s.cloud.volumes_by_id,
                    );
                    size = ground arith;
                    name = refl;
                    others = λ k ne.
                        ground (arith, lookup-insert k req.volume_id vol' s.cloud.volumes_by_id);
                  }
              | inr enough ↦ record {
                before = vol;
                after = vol;
                was = there;
                is = ground arith;
                size = ground arith;
                name = refl;
                others = λ k ne. ground arith;
              }
            ]
      ]

  expand_locked-Grown :
      (req : ControllerExpandVolumeRequest) (range : CapacityRange)
      (s t : Server L (fake_connector U)) (resp : ControllerExpandVolumeResponse)
      → expand_locked L (fake_connector U) req range s ≡ ok resp t
      → Grown req.volume_id resp.capacity_bytes s.cloud t.cloud
  unfolding expand_locked Fake.get_volume_by_id
  expand_locked-Grown req range s t resp h =
      elim (Option-cases (lookup req.volume_id s.cloud.volumes_by_id)) [
        | inl gone ↦ absurd (ground arith)
        | inr (vol, there) ↦
            let size = round_up_bytes_to_gb range.required_bytes in
            let (l, u, body, same) =
              with_operation_lock-ok L (fake_connector U) (get_expand_lock req.volume_id)
                (release_expand_lock req.volume_id) (expand_call L (fake_connector U) req size) s t
                resp (ground arith) in
            rw same (expand_call-Grown req size (record s { operation_locks = l }) u resp body)
      ]

  -- Where `ControllerExpandVolume` succeeds on the fake connector, the volume of the request is there
  -- before and after; afterwards its size is the capacity that is answered, or the size that it had
  -- if that is not less; and the other volumes, by identifier, are as they were.
  pub controller_expand_volume-Grown :
      (req : ControllerExpandVolumeRequest) (s t : Server L (fake_connector U))
      (resp : ControllerExpandVolumeResponse)
      → controller_expand_volume L (fake_connector U) req s ≡ ok resp t
      → Grown req.volume_id resp.capacity_bytes s.cloud t.cloud
  unfolding controller_expand_volume
  controller_expand_volume-Grown req s t resp h = elim (Option-cases req.capacity_range) [
    | inl e ↦ absurd (ground arith)
    | inr (range, e) ↦
        let (u, body, after) =
          with_volume_lock-ok L U req.volume_id (expand_locked L (fake_connector U) req range) s t
            resp (ground arith) in
        rw after (
          expand_locked-Grown req range
            (record s { volume_locks = L.insert s.volume_locks req.volume_id }) u resp body)
  ]
