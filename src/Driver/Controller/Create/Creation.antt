-- ===== src/Driver/Controller/Create/Creation.antt =====
-- What `CreateVolume` of pkg/driver/controller.go does to the fake connector for a new volume.
use cloudstack_csi_driver.Prelude.{
  ℕ, suc, String, false, none, some, ◌≡◌, refl, arith, Option-cases, inl, inr, ◌=?◌, sym, ◌∙◌,
}
use cloudstack_csi_driver.Prelude.Int.{ℤ}
use cloudstack_csi_driver.Prelude.Maps.{Map, lookup}
use cloudstack_csi_driver.Prelude.Prog.{ok, Outcome-cases}
use cloudstack_csi_driver.Util.Gb.{giga_bytes_to_bytes}
use cloudstack_csi_driver.Util.VolumeLocks.{Sets}
use cloudstack_csi_driver.Cloud.{Volume, not_found, is_not_found}
use cloudstack_csi_driver.Cloud.Fake.{
  Supply, FakeConnector, fake_connector, fake_node, store, made_volume,
}
use cloudstack_csi_driver.Cloud.Fake
use cloudstack_csi_driver.Driver.Csi.{
  CreateVolumeRequest, CreateVolumeResponse, value, disk_offering_key,
}
use cloudstack_csi_driver.Driver.Topology.{
  ZoneRequest, anywhere, in_zone, too_many, unparsable, no_element, zone_request,
}
use cloudstack_csi_driver.Driver.Sizes.{determine_size}
use cloudstack_csi_driver.Driver.Controller.{Server}
use cloudstack_csi_driver.Driver.Controller.Create.{
  create_volume, provision, new_volume, create_blank, choose_zone, snapshot_id,
}
use cloudstack_csi_driver.Driver.Controller.Create.Existing.{provision-new}
use cloudstack_csi_driver.Driver.Controller.Create.Twice.{
  create_volume-provision, with_volume_lock-ok,
}

-- What the creation of a volume of a name does to the connector.
pub record Made (U : Supply) (name id : String) (c c' : FakeConnector) : Type 0 where
  pub vol : Volume
  pub stored : c' ≡ store vol (record c { drawn = suc c.drawn })
  pub same_name : vol.name ≡ name
  pub same_id : vol.id ≡ id
  pub drawn_id : id ≡ U.uuid c.drawn
  pub detached : vol.virtual_machine_id ≡ ""

-- The same, and the server keeps its locks.
record Makes (L : Sets) (U : Supply) (name id : String) (s t : Server L (fake_connector U))
    : Type 0 where
  made : Made U name id s.cloud t.cloud
  same_locks : t.volume_locks ≡ s.volume_locks
  same_operations : t.operation_locks ≡ s.operation_locks

module _ (L : Sets) (U : Supply) where
  choose_zone-state :
      (draw : ℕ) (z : ZoneRequest) (s t : Server L (fake_connector U)) (zone : String)
      → choose_zone L (fake_connector U) draw z s ≡ ok zone t
      → t ≡ s
  unfolding choose_zone Fake.list_zones_id
  choose_zone-state draw anywhere s t zone h = ground arith
  choose_zone-state draw (in_zone z) s t zone h = ground arith
  choose_zone-state draw too_many s t zone h = absurd (ground arith)
  choose_zone-state draw unparsable s t zone h = absurd (ground arith)
  choose_zone-state draw no_element s t zone h = absurd (ground arith)

  blank-Makes :
      (draw : ℕ) (req : CreateVolumeRequest) (ps : Map String) (offering : String) (size : ℤ)
      (s t : Server L (fake_connector U)) (resp : CreateVolumeResponse)
      → create_blank L (fake_connector U) draw req ps offering size s ≡ ok resp t
      → Makes L U req.name resp.volume_id s t
  unfolding create_blank Fake.create_volume
  blank-Makes draw req ps offering size s t resp h =
      elim (Outcome-cases
        (choose_zone L (fake_connector U) draw (zone_request req.accessibility_requirements) s)) [
          | inr (x, u, e) ↦ absurd (ground arith)
          | inl (zone, u, e) ↦
              let same =
                choose_zone-state draw (zone_request req.accessibility_requirements) s u zone e in
              let bytes = giga_bytes_to_bytes size in
              record {
                made = record {
                  vol = made_volume (U.uuid s.cloud.drawn) req.name bytes offering zone;
                  stored = ground arith;
                  same_name = refl;
                  same_id = ground arith;
                  drawn_id = ground arith;
                  detached = refl;
                };
                same_locks = ground arith;
                same_operations = ground arith;
              }
        ]

  new-Makes :
      (draw : ℕ) (req : CreateVolumeRequest) (ps : Map String) (offering : String)
      (s t : Server L (fake_connector U)) (resp : CreateVolumeResponse)
      → snapshot_id req.volume_content_source ≡ ""
      → new_volume L (fake_connector U) draw req ps offering s ≡ ok resp t
      → Makes L U req.name resp.volume_id s t
  unfolding new_volume
  new-Makes draw req ps offering s t resp blank h =
      elim (Option-cases (determine_size req.capacity_range)) [
        | inl f ↦ absurd (ground arith)
        | inr (size, f) ↦ blank-Makes draw req ps offering size s t resp (ground arith)
      ]

  provision-Makes :
      (draw : ℕ) (req : CreateVolumeRequest) (ps : Map String) (offering : String)
      (s t : Server L (fake_connector U)) (resp : CreateVolumeResponse)
      → (req.name =? "") ≡ false
      → lookup req.name s.cloud.volumes_by_name ≡ none
      → snapshot_id req.volume_content_source ≡ ""
      → provision L (fake_connector U) draw req ps offering s ≡ ok resp t
      → Makes L U req.name resp.volume_id s t
  unfolding Fake.get_volume_by_name is_not_found
  provision-Makes draw req ps offering s t resp ne gone blank h =
      new-Makes draw req ps offering s t resp blank (
        sym (
          provision-new L (fake_connector U) draw req ps offering s s.cloud not_found (ground arith)
            refl)
        ∙ h)

  -- The creation, as a step between two states of the server.
  pub create_volume-Made :
      (draw : ℕ) (req : CreateVolumeRequest) (ps : Map String) (s t : Server L (fake_connector U))
      (resp : CreateVolumeResponse)
      → req.parameters ≡ some ps
      → snapshot_id req.volume_content_source ≡ ""
      → lookup req.name s.cloud.volumes_by_name ≡ none
      → create_volume L (fake_connector U) draw req s ≡ ok resp t
      → Made U req.name resp.volume_id s.cloud t.cloud
        × (t.operation_locks ≡ s.operation_locks)
        × ((id : String) → L.has s.volume_locks id ≡ false → L.has t.volume_locks id ≡ false)
  create_volume-Made draw req ps s t resp e blank gone h =
      let (named, run, every) =
        create_volume-provision L (fake_connector U) draw req ps s t resp e h in
      let offering = value disk_offering_key ps in
      let (u, body, after) =
        with_volume_lock-ok L U req.name (provision L (fake_connector U) draw req ps offering) s t
          resp run in
      let taken = record s { volume_locks = L.insert s.volume_locks req.name } in
      let m = provision-Makes draw req ps offering taken u resp named gone blank body in
      rw after (
        m.made,
        m.same_operations,
        λ id free. ground (
          arith,
          m.same_locks,
          L.has-delete u.volume_locks req.name id,
          L.has-insert s.volume_locks req.name id,
        ),
      )
