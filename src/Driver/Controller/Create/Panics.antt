-- ===== src/Driver/Controller/Create/Panics.antt =====
-- When `CreateVolume` panics.
use native.Mathlib.Nat.{mod-lt}
use cloudstack_csi_driver.Prelude.{
  zero, suc, ℕ, ◌%◌, ◌<◌, String, Option, none, List, [], ◌∷◌, ◌≡◌, ◌≢◌, refl, arith, Option-cases,
  inl, inr, length, get_elem?,
}
use cloudstack_csi_driver.Prelude.Int.{ℤ}
use cloudstack_csi_driver.Prelude.Maps.{Map}
use cloudstack_csi_driver.Prelude.Prog.{err, Outcome-cases}
use cloudstack_csi_driver.Util.VolumeLocks.{Sets}
use cloudstack_csi_driver.Util.VolumeLocks
use cloudstack_csi_driver.Cloud.{Connector, Volume}
use cloudstack_csi_driver.Driver.Csi.{
  CreateVolumeRequest, TopologyRequirement, panic, value, disk_offering_key, CapacityRange,
}
use cloudstack_csi_driver.Driver.Topology.{
  ZoneRequest, anywhere, in_zone, too_many, unparsable, no_element, zone_request,
}
use cloudstack_csi_driver.Driver.Sizes.{determine_size}
use cloudstack_csi_driver.Driver.Suitable.{panics, check_volume_suitable}
use cloudstack_csi_driver.Driver.Controller.{Server, Handler, with_volume_lock}
use cloudstack_csi_driver.Driver.Controller.Create.{
  create_volume, provision, existing_volume, new_volume, create_blank, create_from_snapshot,
  choose_zone, snapshot_id,
}

get_elem-some : {A : Type 0} (xs : List A) (i : ℕ) → i < length xs → get_elem? xs i ≢ none
get_elem-some [] i h e = absurd (omega arith)
get_elem-some (x ∷ xs) zero h e = absurd cc
get_elem-some (x ∷ xs) (suc i) h e = get_elem-some xs i (omega arith) e

not-panics :
    (vol : Volume) (offering : String) (range : Option CapacityRange)
    (requirement : Option TopologyRequirement)
    → zone_request requirement ≢ no_element
    → check_volume_suitable vol offering range requirement ≢ panics
unfolding check_volume_suitable
not-panics vol offering range requirement ne h = ground arith

module _ (L : Sets) (C : Connector) where
  choose_zone-panics :
      (draw : ℕ) (z : ZoneRequest) (s t : Server L C)
      → z ≢ no_element
      → choose_zone L C draw z s ≢ err panic t
  unfolding choose_zone
  choose_zone-panics draw anywhere s t ne h = elim (Outcome-cases (C.list_zones_id s.cloud)) [
    | inr (e, c, f) ↦ ground arith
    | inl (zones, c, f) ↦ elim (Option-cases (get_elem? zones (draw % length zones))) [
      | inr (zone, g) ↦ ground arith
      | inl g ↦ ground (
        arith,
        λ (p : 0 < length zones). get_elem-some zones (draw % length zones) (mod-lt draw p) g,
      )
    ]
  ]
  choose_zone-panics draw (in_zone zone) s t ne h = ground arith
  choose_zone-panics draw too_many s t ne h = ground arith
  choose_zone-panics draw unparsable s t ne h = ground arith
  choose_zone-panics draw no_element s t ne h = ne refl

  existing-panics :
      (req : CreateVolumeRequest) (ps : Map String) (offering : String) (vol : Volume)
      (s t : Server L C)
      → zone_request req.accessibility_requirements ≢ no_element
      → existing_volume L C req ps offering vol s ≢ err panic t
  unfolding existing_volume
  existing-panics req ps offering vol s t ne h =
      ground (arith, not-panics vol offering req.capacity_range req.accessibility_requirements ne)

  snapshot-panics :
      (req : CreateVolumeRequest) (ps : Map String) (id : String) (size : ℤ) (s t : Server L C)
      → create_from_snapshot L C req ps id size s ≢ err panic t
  unfolding create_from_snapshot
  snapshot-panics req ps id size s t h = ground arith

  blank-panics :
      (draw : ℕ) (req : CreateVolumeRequest) (ps : Map String) (offering : String) (size : ℤ)
      (s t : Server L C)
      → zone_request req.accessibility_requirements ≢ no_element
      → create_blank L C draw req ps offering size s ≢ err panic t
  unfolding create_blank
  blank-panics draw req ps offering size s t ne h =
      elim (Outcome-cases (choose_zone L C draw (zone_request req.accessibility_requirements) s)) [
        | inl (zone, u, e) ↦ ground arith
        | inr (x, u, e) ↦
            choose_zone-panics draw (zone_request req.accessibility_requirements) s t ne
              (ground arith)
      ]

  new-panics :
      (draw : ℕ) (req : CreateVolumeRequest) (ps : Map String) (offering : String)
      (s t : Server L C)
      → zone_request req.accessibility_requirements ≢ no_element
      → new_volume L C draw req ps offering s ≢ err panic t
  unfolding new_volume
  new-panics draw req ps offering s t ne h =
      elim (Option-cases (determine_size req.capacity_range)) [
        | inl f ↦ ground arith
        | inr (size, f) ↦ ground (
          arith,
          blank-panics draw req ps offering size s t ne,
          snapshot-panics req ps (snapshot_id req.volume_content_source) size s t,
        )
      ]

  provision-panics :
      (draw : ℕ) (req : CreateVolumeRequest) (ps : Map String) (offering : String)
      (s t : Server L C)
      → zone_request req.accessibility_requirements ≢ no_element
      → provision L C draw req ps offering s ≢ err panic t
  unfolding provision
  provision-panics draw req ps offering s t ne h =
      elim (Outcome-cases (C.get_volume_by_name req.name s.cloud)) [
        | inl (vol, c, e) ↦
            ground (arith, existing-panics req ps offering vol (record s { cloud = c }) t ne)
        | inr (x, c, e) ↦
            ground (arith, new-panics draw req ps offering (record s { cloud = c }) t ne)
      ]

  with_volume_lock-panics :
      {A : Type 0} (id : String) (body : Handler L C A) (s t : Server L C)
      → ((u v : Server L C) → body u ≢ err panic v)
      → with_volume_lock id body s ≢ err panic t
  unfolding with_volume_lock VolumeLocks.try_acquire
  with_volume_lock-panics id body s t never h =
      let s' = record s { volume_locks = L.insert s.volume_locks id } in
      elim (Outcome-cases (body s')) [
        | inl (a, u, e) ↦ ground arith
        | inr (x, u, e) ↦ ground (arith, never s' u)
      ]

  -- Whatever the connector answers, `CreateVolume` does not panic, unless the request has a list of
  -- requisite topologies that is empty.
  pub create_volume_no_panic :
      (draw : ℕ) (req : CreateVolumeRequest) (s t : Server L C)
      → zone_request req.accessibility_requirements ≢ no_element
      → create_volume L C draw req s ≢ err panic t
  unfolding create_volume
  create_volume_no_panic draw req s t ne h = elim (Option-cases req.parameters) [
    | inl e ↦ ground arith
    | inr (ps, e) ↦ ground (
      arith,
      with_volume_lock-panics req.name (provision L C draw req ps (value disk_offering_key ps)) s t
          (λ u v. provision-panics draw req ps (value disk_offering_key ps) u v ne),
    )
  ]

  -- With such a list the making of a blank volume panics.
  pub create_blank_panics :
      (draw : ℕ) (req : CreateVolumeRequest) (ps : Map String) (offering : String) (size : ℤ)
      (s : Server L C)
      → zone_request req.accessibility_requirements ≡ no_element
      → create_blank L C draw req ps offering size s ≡ err panic s
  unfolding create_blank choose_zone
  create_blank_panics draw req ps offering size s e = ground arith
