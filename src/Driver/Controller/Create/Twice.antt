-- ===== src/Driver/Controller/Create/Twice.antt =====
-- `CreateVolume` on the fake connector, called again.
use cloudstack_csi_driver.Prelude.{
  subst, ℕ, String, none, some, ◌≡◌, refl, arith, Bool-cases, inl, inr, ◌=?◌, false, sym, ◌∙◌,
}
use cloudstack_csi_driver.Prelude.Maps.{Map}
use cloudstack_csi_driver.Prelude.Prog.{ok, Outcome-cases}
use cloudstack_csi_driver.Util.VolumeLocks.{Sets}
use cloudstack_csi_driver.Util.VolumeLocks
use cloudstack_csi_driver.Cloud.{Connector}
use cloudstack_csi_driver.Cloud.Fake.{Supply, fake_connector}
use cloudstack_csi_driver.Driver.Csi.{
  CreateVolumeRequest, CreateVolumeResponse, value, disk_offering_key,
}
use cloudstack_csi_driver.Driver.Controller.{Server, Handler, with_volume_lock}
use cloudstack_csi_driver.Driver.Controller.Create.{create_volume, provision, response, snapshot_id}
use cloudstack_csi_driver.Driver.Controller.Create.Laws.{IsModest}
use cloudstack_csi_driver.Driver.Controller.Create.Existing.{IsThere, again, provision-IsThere}

-- A call that succeeds has passed the checks of the arguments, and so does every other one.
pub create_volume-provision :
    (L : Sets) (C : Connector) (draw : ℕ) (req : CreateVolumeRequest) (ps : Map String)
    (s t : Server L C) (resp : CreateVolumeResponse)
    → req.parameters ≡ some ps
    → create_volume L C draw req s ≡ ok resp t
    → ((req.name =? "") ≡ false)
      × (with_volume_lock req.name (provision L C draw req ps (value disk_offering_key ps)) s
          ≡ ok resp t)
      × ((draw' : ℕ) (s' : Server L C)
          → create_volume L C draw' req s'
            ≡ with_volume_lock req.name
                (provision L C draw' req ps (value disk_offering_key ps))
                s')
unfolding create_volume
create_volume-provision L C draw req ps s t resp e h =
    (ground arith, ground arith, λ draw' s'. ground arith)

module _ (L : Sets) (U : Supply) where
  -- A handler that succeeds under the lock of a volume found it free and leaves it free.
  pub with_volume_lock-ok :
      {A : Type 0} (id : String) (body : Handler L (fake_connector U) A)
      (s t : Server L (fake_connector U)) (a : A)
      → with_volume_lock id body s ≡ ok a t
      → (u : Server L (fake_connector U)) × (body
            (record s { volume_locks = L.insert s.volume_locks id })
          ≡ ok a u)
        × (t ≡ record u { volume_locks = L.delete u.volume_locks id })
  unfolding with_volume_lock VolumeLocks.try_acquire VolumeLocks.release
  with_volume_lock-ok id body s t a h = elim (Bool-cases (L.has s.volume_locks id)) [
    | inl taken ↦ absurd (ground arith)
    | inr free ↦
        elim (Outcome-cases (body (record s { volume_locks = L.insert s.volume_locks id }))) [
          | inr (x, u, e) ↦ absurd (ground arith)
          | inl (b, u, e) ↦ (u, ground arith, ground arith)
        ]
  ]

  pub with_volume_lock-run :
      {A : Type 0} (id : String) (body : Handler L (fake_connector U) A)
      (s u : Server L (fake_connector U)) (a : A)
      → L.has s.volume_locks id ≡ false
      → body (record s { volume_locks = L.insert s.volume_locks id }) ≡ ok a u
      → with_volume_lock id body s ≡ ok a (record u { volume_locks = L.delete u.volume_locks id })
  unfolding with_volume_lock VolumeLocks.try_acquire VolumeLocks.release
  with_volume_lock-run id body s u a free e = ground arith

  abbrev unlocked : String → Server L (fake_connector U) → Server L (fake_connector U)
  unlocked id u = record u { volume_locks = L.delete u.volume_locks id }

  -- A success with the same volume that leaves the cloud as it is.
  abbrev Repeats :
      ℕ → CreateVolumeRequest → CreateVolumeResponse → Server L (fake_connector U) → Type 0
  Repeats draw req resp t =
      (resp' : CreateVolumeResponse) × (t' : Server L (fake_connector U)) × (create_volume L
          (fake_connector U) draw req t
        ≡ ok resp' t')
      × (resp'.volume_id ≡ resp.volume_id)
      × (resp'.capacity_bytes ≡ resp.capacity_bytes)
      × (t'.cloud ≡ t.cloud)

  unlocked-Repeats :
      (draw : ℕ) (req : CreateVolumeRequest) (ps : Map String) (u : Server L (fake_connector U))
      (resp : CreateVolumeResponse)
      → (req.name =? "") ≡ false
      → IsThere L U req (value disk_offering_key ps) resp u.cloud
      → create_volume L (fake_connector U) draw req (unlocked req.name u)
        ≡ with_volume_lock req.name
            (provision L (fake_connector U) draw req ps (value disk_offering_key ps))
            (unlocked req.name u)
      → Repeats draw req resp (unlocked req.name u)
  unlocked-Repeats draw req ps u resp named w checks =
      let t = unlocked req.name u in
      let taken = record t { volume_locks = L.insert t.volume_locks req.name } in
      let offering = value disk_offering_key ps in
      let resp' = response req ps w.vol.id w.vol.size w.vol.zone_id none in
      (
        resp',
        unlocked req.name taken,
        checks
            ∙ with_volume_lock-run req.name (provision L (fake_connector U) draw req ps offering) t
                taken resp' (ground (arith, L.has-delete u.volume_locks req.name req.name))
                (again L U draw req ps offering taken resp w named),
        w.same_id,
        w.same_size,
        refl,
      )

  -- If `CreateVolume` succeeds on the fake connector, on a request that asks for no snapshot, and whose
  -- required bytes are between 0 and 2^63 - 2^30, then so it does when it is called again with the
  -- request, whatever is drawn: it answers with the same volume and size, and makes no other one.
  pub create_volume_twice :
      (draw draw' : ℕ) (req : CreateVolumeRequest) (ps : Map String)
      (s t : Server L (fake_connector U)) (resp : CreateVolumeResponse)
      → req.parameters ≡ some ps
      → snapshot_id req.volume_content_source ≡ ""
      → IsModest req.capacity_range
      → create_volume L (fake_connector U) draw req s ≡ ok resp t
      → (resp' : CreateVolumeResponse) × (t' : Server L (fake_connector U)) × (create_volume L
            (fake_connector U)
            draw'
            req
            t
          ≡ ok resp' t')
        × (resp'.volume_id ≡ resp.volume_id)
        × (resp'.capacity_bytes ≡ resp.capacity_bytes)
        × (t'.cloud ≡ t.cloud)
  create_volume_twice draw draw' req ps s t resp e blank m h =
      let (named, run, every) =
        create_volume-provision L (fake_connector U) draw req ps s t resp e h in
      let offering = value disk_offering_key ps in
      let (u, body, after) =
        with_volume_lock-ok req.name (provision L (fake_connector U) draw req ps offering) s t resp
          run in
      let w =
        provision-IsThere L U draw req ps offering
          (record s { volume_locks = L.insert s.volume_locks req.name }) u resp named blank m
          body in
      subst (Repeats draw' req resp) (sym after)
        (unlocked-Repeats draw' req ps u resp named w (every draw' (unlocked req.name u)))
