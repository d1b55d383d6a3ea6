-- ===== src/Driver/Controller/Create/Laws.antt =====
-- What `CreateVolume` answers.
use cloudstack_csi_driver.Prelude.{
  ℕ, ◌-◌, ◌^◌, ◌≤◌, String, Option, none, some, [], ◌∷◌, ◌≡◌, ◌⊎◌, subst, refl, arith, Bool-cases,
  Option-cases, inl, inr,
}
use cloudstack_csi_driver.Prelude.Int.{ℤ, pos}
use cloudstack_csi_driver.Prelude.Maps.{Map}
use cloudstack_csi_driver.Prelude.Prog.{Prog, Outcome, ok, err, Outcome-cases, pure, fail, ◌>>=◌}
use cloudstack_csi_driver.Util.VolumeLocks.{Sets}
use cloudstack_csi_driver.Util.VolumeLocks
use cloudstack_csi_driver.Util.Gb.{giga_bytes_to_bytes}
use cloudstack_csi_driver.Util.Gb.Laws.{giga_bytes_pos}
use cloudstack_csi_driver.Cloud.{Connector, Volume, is_not_found}
use cloudstack_csi_driver.Driver.Csi.{
  CreateVolumeRequest, CreateVolumeResponse, CapacityRange, TopologyRequirement, Failure, panic,
  status, value, disk_offering_key, already_exists,
}
use cloudstack_csi_driver.Driver.Topology.{
  ZoneRequest, anywhere, in_zone, too_many, unparsable, no_element, zone_request, to_csi,
}
use cloudstack_csi_driver.Driver.Sizes.{determine_size}
use cloudstack_csi_driver.Driver.Sizes.Laws.{determine_size_pos, least_gb, least_gb_lem}
use cloudstack_csi_driver.Driver.Suitable.{
  Suitability, suitable, unsuitable, panics, check_volume_suitable,
}
use cloudstack_csi_driver.Driver.Suitable.Laws.{InRange, InZone, check_volume_suitable_iff}
use cloudstack_csi_driver.Driver.Controller.{Server, Handler, with_volume_lock, unlock_volume}
use cloudstack_csi_driver.Driver.Controller.Create.{
  create_volume, provision, existing_volume, new_volume, create_blank, choose_zone, response,
  snapshot_id,
}

-- What holds of the answer, if the program succeeds.
abbrev pub Answers : {E S A : Type 0} → (A → Type 0) → Outcome E S A → Type 0
Answers P (ok a s) = P a
Answers P (err e s) = Unit

-- The connector was asked for a volume of the name and of the offering in a zone, and made one of the
-- size that is answered; or it returned one of the name that is in the zone and has that size.
abbrev pub Provided :
    Connector → CreateVolumeRequest → String → String → CreateVolumeResponse → Type 0
Provided C req offering zone resp =
    ((size : ℤ) × (c : C.State) × (c' : C.State) × (C.create_volume offering zone req.name size c
        ≡ ok resp.volume_id c')
      × (resp.capacity_bytes ≡ giga_bytes_to_bytes size))
    ⊎ ((vol : Volume) × (c : C.State) × (c' : C.State) × (C.get_volume_by_name req.name c
          ≡ ok vol c')
        × (vol.id ≡ resp.volume_id)
        × (vol.zone_id ≡ zone)
        × (vol.size ≡ resp.capacity_bytes))

-- The volume keeps to the capacity range and to the topology of the request, and the answer tells
-- where it is and hands the parameters on.
pub record Meets (C : Connector) (req : CreateVolumeRequest) (ps : Map String)
    (resp : CreateVolumeResponse) : Type 0 where
  pub zone : String
  pub provided : Provided C req (value disk_offering_key ps) zone resp
  pub located : resp.accessible_topology ≡ to_csi (record { zone_id = zone; host_id = "" }) ∷ []
  pub in_zone : InZone zone req.accessibility_requirements
  pub in_range : InRange resp.capacity_bytes req.capacity_range
  pub context : resp.volume_context ≡ ps

-- A range whose required bytes are a number up to 2^63 - 2^30, which round up without overflow.
abbrev pub IsModest : Option CapacityRange → Type 0
IsModest none = Unit
IsModest (some range) = (n : ℕ) × (range.required_bytes ≡ pos n) × (n ≤ 2 ^ 63 - 2 ^ 30)

pub determined-InRange :
    (range : Option CapacityRange) (size : ℤ)
    → IsModest range
    → determine_size range ≡ some size
    → InRange (giga_bytes_to_bytes size) range
unfolding determine_size
determined-InRange none size m e = tt
determined-InRange (some range) size (n, r, small) e =
    ground (arith, determine_size_pos range n r small, least_gb_lem n, giga_bytes_pos (least_gb n))

Answers_lem : {E S A : Type 0} (P : A → Type 0) (o : Outcome E S A) → ((a : A) → P a) → Answers P o
Answers_lem P (ok a s) h = h a
Answers_lem P (err e s) h = tt

-- The rule for a sequence: what the first part answers is a premise for the second.
Answers->>= :
    {E S A B : Type 0} (P : A → Type 0) (Q : B → Type 0) (m : Prog E S A) (f : A → Prog E S B)
    (s : S)
    → Answers P (m s)
    → ((a : A) (t : S) → P a → Answers Q (f a t))
    → Answers Q ((m >>= f) s)
Answers->>= {E} {S} {A} {B} P Q m f s h k = go (m s) h
  where
    go :
        (o : Outcome E S A)
        → Answers P o
        → Answers Q (elim o [ ok a t ↦ f a t | err e t ↦ err e t ])
    go (ok a t) h' = k a t h'
    go (err e t) h' = tt

module _ (L : Sets) (C : Connector) where
  choose_zone-InZone :
      (draw : ℕ) (requirement : Option TopologyRequirement) (z : ZoneRequest) (s : Server L C)
      → zone_request requirement ≡ z
      → Answers (λ zone. InZone zone requirement) (choose_zone L C draw z s)
  unfolding choose_zone
  choose_zone-InZone draw requirement anywhere s e = Answers_lem _ _ (λ a. inl e)
  choose_zone-InZone draw requirement (in_zone zone) s e = inr e
  choose_zone-InZone draw requirement too_many s e = tt
  choose_zone-InZone draw requirement unparsable s e = tt
  choose_zone-InZone draw requirement no_element s e = tt

  existing_volume-Meets :
      (req : CreateVolumeRequest) (ps : Map String) (offering : String) (vol : Volume)
      (s : Server L C) (c c' : C.State)
      → C.get_volume_by_name req.name c ≡ ok vol c'
      → Answers (Meets C req ps) (existing_volume L C req ps offering vol s)
  unfolding existing_volume
  existing_volume-Meets req ps offering vol s c c' found = go _ refl
    where
      check : Suitability
      check = check_volume_suitable vol offering req.capacity_range req.accessibility_requirements

      go :
          (r : Suitability)
          → check ≡ r
          → Answers (Meets C req ps) (
              (elim r as (λ x. Handler L C CreateVolumeResponse) [
                | suitable ↦ pure (response req ps vol.id vol.size vol.zone_id none)
                | unsuitable reason ↦ fail (status already_exists)
                | panics ↦ fail panic
              ])
                s)
      go suitable e =
          let suits =
            (check_volume_suitable_iff vol offering req.capacity_range
                req.accessibility_requirements).0
              e in
          record {
            zone = vol.zone_id;
            provided = inr (vol, c, c', found, refl, refl, refl);
            located = refl;
            in_zone = suits.in_zone;
            in_range = suits.in_range;
            context = refl;
          }
      go (unsuitable reason) e = tt
      go panics e = tt

  create_blank-Meets :
      (draw : ℕ) (req : CreateVolumeRequest) (ps : Map String) (offering : String) (size : ℤ)
      (s : Server L C)
      → offering ≡ value disk_offering_key ps
      → InRange (giga_bytes_to_bytes size) req.capacity_range
      → Answers (Meets C req ps) (create_blank L C draw req ps offering size s)
  unfolding create_blank
  create_blank-Meets draw req ps offering size s same r =
      Answers->>= (λ zone. InZone zone req.accessibility_requirements) (Meets C req ps)
        (choose_zone L C draw (zone_request req.accessibility_requirements)) _ s
        (choose_zone-InZone draw req.accessibility_requirements _ s refl)
        λ zone t z. elim (Outcome-cases (C.create_volume offering zone req.name size t.cloud)) [
          | inl (id, c, e) ↦
              rw (e, Answers)
                (record {
                  zone = zone;
                  provided = inl (
                    size,
                    t.cloud,
                    c,
                    subst (λ o. C.create_volume o zone req.name size t.cloud ≡ ok id c) same e,
                    refl,
                  );
                  located = refl;
                  in_zone = z;
                  in_range = r;
                  context = refl;
                })
          | inr (x, c, e) ↦ rw (e, Answers) tt
        ]

  -- A request that asks for no snapshot.
  new_volume-Meets :
      (draw : ℕ) (req : CreateVolumeRequest) (ps : Map String) (offering : String) (s : Server L C)
      → offering ≡ value disk_offering_key ps
      → snapshot_id req.volume_content_source ≡ ""
      → IsModest req.capacity_range
      → Answers (Meets C req ps) (new_volume L C draw req ps offering s)
  unfolding new_volume
  new_volume-Meets draw req ps offering s same blank m =
      elim (Option-cases (determine_size req.capacity_range)) [
        | inl e ↦ rw (e, Answers) tt
        | inr (size, e) ↦ ground (
          arith,
          create_blank-Meets draw req ps offering size s same
              (determined-InRange req.capacity_range size m e),
        )
      ]

  provision-Meets :
      (draw : ℕ) (req : CreateVolumeRequest) (ps : Map String) (offering : String) (s : Server L C)
      → offering ≡ value disk_offering_key ps
      → snapshot_id req.volume_content_source ≡ ""
      → IsModest req.capacity_range
      → Answers (Meets C req ps) (provision L C draw req ps offering s)
  unfolding provision
  provision-Meets draw req ps offering s same blank m =
      elim (Outcome-cases (C.get_volume_by_name req.name s.cloud)) [
        | inl (vol, c, e) ↦
            rw (e, Answers) (existing_volume-Meets req ps offering vol _ s.cloud c e)
        | inr (x, c, e) ↦
            rw (e, Answers)
              (elim (Bool-cases (is_not_found x)) [
                | inl missing ↦
                    rw (missing, Answers) (new_volume-Meets draw req ps offering _ same blank m)
                | inr other ↦ rw (other, Answers) tt
              ])
      ]

  pub with_volume_lock-Answers :
      {A : Type 0} (P : A → Type 0) (id : String) (body : Handler L C A) (s : Server L C)
      → ((t : Server L C) → Answers P (body t))
      → Answers P (with_volume_lock id body s)
  unfolding with_volume_lock VolumeLocks.try_acquire
  with_volume_lock-Answers {A} P id body s h = elim (Bool-cases (L.has s.volume_locks id)) [
    | inl taken ↦ rw (taken, with_volume_lock, VolumeLocks.try_acquire) tt
    | inr free ↦
        rw (free, with_volume_lock, VolumeLocks.try_acquire)
          (unlock_volume-Answers (body (record s { volume_locks = L.insert s.volume_locks id }))
            (h _))
  ]
    where
      unlock_volume-Answers :
          (o : Outcome Failure (Server L C) A) → Answers P o → Answers P (unlock_volume id o)
      unlock_volume-Answers (ok a t) h' = h'
      unlock_volume-Answers (err e t) h' = tt

  -- Whatever the connector answers: if `CreateVolume` succeeds on a request that asks for no
  -- snapshot, and whose required bytes are between 0 and 2^63 - 2^30, then the connector made the
  -- volume that is answered, in a call for the name and the disk offering of the request, or returned
  -- it for the name; the zone of that call, or of the volume returned, is the zone that is answered,
  -- and the requested one where one is requested; the size that is answered is that of the call, or of
  -- the volume returned, and lies in the requested range; and the parameters are handed on.
  pub create_volume-Meets :
      (draw : ℕ) (req : CreateVolumeRequest) (ps : Map String) (s : Server L C)
      → req.parameters ≡ some ps
      → snapshot_id req.volume_content_source ≡ ""
      → IsModest req.capacity_range
      → Answers (Meets C req ps) (create_volume L C draw req s)
  unfolding create_volume
  create_volume-Meets draw req ps s e blank m = ground (
    arith,
    with_volume_lock-Answers (Meets C req ps) req.name
        (provision L C draw req ps (value disk_offering_key ps)) s
        (λ (t : Server L C).
          provision-Meets draw req ps (value disk_offering_key ps) t refl blank m),
  )
