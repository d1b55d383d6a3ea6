-- ===== src/Driver/Controller/Create/Existing.antt =====
-- The volume that `CreateVolume` answers with, on the fake connector.
use cloudstack_csi_driver.Prelude.{
  ◌⊎◌, ℕ, String, Option, none, some, ◌≡◌, refl, arith, Option-cases, inl, inr, ◌=?◌, true, false,
  sym, ◌∙◌,
}
use cloudstack_csi_driver.Prelude.Int.{ℤ}
use cloudstack_csi_driver.Prelude.Maps.{Map, lookup, lookup-insert}
use cloudstack_csi_driver.Prelude.Prog.{ok, err, Outcome-cases}
use cloudstack_csi_driver.Util.VolumeLocks.{Sets}
use cloudstack_csi_driver.Util.Gb.{giga_bytes_to_bytes}
use cloudstack_csi_driver.Cloud.{Connector, Err, not_found, Volume, is_not_found}
use cloudstack_csi_driver.Cloud.Fake.{Supply, FakeConnector, fake_connector}
use cloudstack_csi_driver.Cloud.Fake
use cloudstack_csi_driver.Driver.Csi.{
  CreateVolumeRequest, CreateVolumeResponse, TopologyRequirement,
}
use cloudstack_csi_driver.Driver.Topology.{
  ZoneRequest, anywhere, in_zone, too_many, unparsable, no_element, zone_request,
}
use cloudstack_csi_driver.Driver.Sizes.{determine_size}
use cloudstack_csi_driver.Driver.Suitable.{
  Reason, Suitability, suitable, unsuitable, panics, check_volume_suitable,
}
use cloudstack_csi_driver.Driver.Suitable.Laws.{InRange, InZone, Suits, check_volume_suitable_iff}
use cloudstack_csi_driver.Driver.Controller.{Server}
use cloudstack_csi_driver.Driver.Controller.Create.{
  provision, existing_volume, new_volume, create_blank, choose_zone, response, snapshot_id,
}
use cloudstack_csi_driver.Driver.Controller.Create.Laws.{IsModest, determined-InRange}

Suitability-cases :
    (r : Suitability)
    → (r ≡ suitable) ⊎ ((reason : Reason) × (r ≡ unsuitable reason)) ⊎ (r ≡ panics)
Suitability-cases suitable = inl refl
Suitability-cases (unsuitable reason) = inr (inl (reason, refl))
Suitability-cases panics = inr (inr refl)

-- Where the volume is not found, the handler goes on to make it.
pub provision-new :
    (L : Sets) (C : Connector) (draw : ℕ) (req : CreateVolumeRequest) (ps : Map String)
    (offering : String) (s : Server L C) (c : C.State) (e : Err)
    → C.get_volume_by_name req.name s.cloud ≡ err e c
    → is_not_found e ≡ true
    → provision L C draw req ps offering s
      ≡ new_volume L C draw req ps offering (record s { cloud = c })
unfolding provision
provision-new L C draw req ps offering s c e gone missing = ground arith

module _ (L : Sets) (U : Supply) where
  -- The volume that was answered with is the one of that name, and suits the request.
  pub record IsThere (req : CreateVolumeRequest) (offering : String) (resp : CreateVolumeResponse)
      (c : FakeConnector) : Type 0 where
    pub vol : Volume
    pub named : lookup req.name c.volumes_by_name ≡ some vol
    pub suits : Suits vol offering req.capacity_range req.accessibility_requirements
    pub same_id : vol.id ≡ resp.volume_id
    pub same_size : vol.size ≡ resp.capacity_bytes

  existing-IsThere :
      (req : CreateVolumeRequest) (ps : Map String) (offering : String) (vol : Volume)
      (s t : Server L (fake_connector U)) (resp : CreateVolumeResponse)
      → lookup req.name s.cloud.volumes_by_name ≡ some vol
      → existing_volume L (fake_connector U) req ps offering vol s ≡ ok resp t
      → IsThere req offering resp t.cloud
  unfolding existing_volume
  existing-IsThere req ps offering vol s t resp e h =
      elim (Suitability-cases
        (check_volume_suitable vol offering req.capacity_range req.accessibility_requirements)) [
          | inl e' ↦ record {
            vol = vol;
            named = ground arith;
            suits =
                (check_volume_suitable_iff vol offering req.capacity_range
                    req.accessibility_requirements).0
                  e';
            same_id = ground arith;
            same_size = ground arith;
          }
          | inr (inl (reason, e')) ↦ absurd (ground arith)
          | inr (inr e') ↦ absurd (ground arith)
        ]

  choose_zone-InZone :
      (draw : ℕ) (requirement : Option TopologyRequirement) (z : ZoneRequest)
      (s t : Server L (fake_connector U)) (zone : String)
      → zone_request requirement ≡ z
      → choose_zone L (fake_connector U) draw z s ≡ ok zone t
      → InZone zone requirement
  unfolding choose_zone
  choose_zone-InZone draw requirement anywhere s t zone e h = inl e
  choose_zone-InZone draw requirement (in_zone z) s t zone e h = inr (ground arith)
  choose_zone-InZone draw requirement too_many s t zone e h = absurd cc
  choose_zone-InZone draw requirement unparsable s t zone e h = absurd cc
  choose_zone-InZone draw requirement no_element s t zone e h = absurd cc

  blank-IsThere :
      (draw : ℕ) (req : CreateVolumeRequest) (ps : Map String) (offering : String) (size : ℤ)
      (s t : Server L (fake_connector U)) (resp : CreateVolumeResponse)
      → InRange (giga_bytes_to_bytes size) req.capacity_range
      → create_blank L (fake_connector U) draw req ps offering size s ≡ ok resp t
      → IsThere req offering resp t.cloud
  unfolding create_blank Fake.create_volume
  blank-IsThere draw req ps offering size s t resp r h =
      elim (Outcome-cases
        (choose_zone L (fake_connector U) draw (zone_request req.accessibility_requirements) s)) [
          | inr (x, u, e) ↦ absurd (ground arith)
          | inl (zone, u, e) ↦
              let vol =
                Fake.made_volume (U.uuid u.cloud.drawn) req.name (giga_bytes_to_bytes size) offering
                  zone in
              record {
                vol = vol;
                named = ground (arith, lookup-insert req.name req.name vol u.cloud.volumes_by_name);
                suits = record {
                  offering = refl;
                  in_range = r;
                  in_zone =
                      choose_zone-InZone draw req.accessibility_requirements _ s u zone refl e;
                };
                same_id = ground arith;
                same_size = ground arith;
              }
        ]

  pub again :
      (draw : ℕ) (req : CreateVolumeRequest) (ps : Map String) (offering : String)
      (t : Server L (fake_connector U)) (resp : CreateVolumeResponse)
      (w : IsThere req offering resp t.cloud)
      → (req.name =? "") ≡ false
      → provision L (fake_connector U) draw req ps offering t
        ≡ ok (response req ps w.vol.id w.vol.size w.vol.zone_id none) t
  unfolding provision existing_volume Fake.get_volume_by_name
  again draw req ps offering t resp w ne = ground (
    arith,
    (check_volume_suitable_iff w.vol offering req.capacity_range req.accessibility_requirements).1
        w.suits,
  )

  new-IsThere :
      (draw : ℕ) (req : CreateVolumeRequest) (ps : Map String) (offering : String)
      (s t : Server L (fake_connector U)) (resp : CreateVolumeResponse)
      → snapshot_id req.volume_content_source ≡ ""
      → IsModest req.capacity_range
      → new_volume L (fake_connector U) draw req ps offering s ≡ ok resp t
      → IsThere req offering resp t.cloud
  unfolding new_volume
  new-IsThere draw req ps offering s t resp blank m h =
      elim (Option-cases (determine_size req.capacity_range)) [
        | inl f ↦ absurd (ground arith)
        | inr (size, f) ↦
            blank-IsThere draw req ps offering size s t resp
              (determined-InRange req.capacity_range size m f) (ground arith)
      ]

  pub provision-IsThere :
      (draw : ℕ) (req : CreateVolumeRequest) (ps : Map String) (offering : String)
      (s t : Server L (fake_connector U)) (resp : CreateVolumeResponse)
      → (req.name =? "") ≡ false
      → snapshot_id req.volume_content_source ≡ ""
      → IsModest req.capacity_range
      → provision L (fake_connector U) draw req ps offering s ≡ ok resp t
      → IsThere req offering resp t.cloud
  unfolding provision Fake.get_volume_by_name is_not_found
  provision-IsThere draw req ps offering s t resp ne blank m h =
      elim (Option-cases (lookup req.name s.cloud.volumes_by_name)) [
        | inr (vol, e) ↦ existing-IsThere req ps offering vol s t resp e (ground arith)
        | inl e ↦ new-IsThere draw req ps offering s t resp blank m (
            sym (
              provision-new L (fake_connector U) draw req ps offering s s.cloud not_found
                (ground arith) refl)
            ∙ h)
      ]
