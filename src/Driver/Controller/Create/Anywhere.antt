-- ===== src/Driver/Controller/Create/Anywhere.antt =====
-- `CreateVolume` from a snapshot, and the topology of the request.
use cloudstack_csi_driver.Prelude.{
  ℕ, String, Option, inl, inr, ◌≡◌, ◌≢◌, arith, true, Option-cases, sym, ◌∙◌,
}
use cloudstack_csi_driver.Prelude.Maps.{Map}
use cloudstack_csi_driver.Prelude.Prog.{err}
use cloudstack_csi_driver.Util.VolumeLocks.{Sets}
use cloudstack_csi_driver.Util.VolumeLocks
use cloudstack_csi_driver.Cloud.{Connector, Err, is_not_found}
use cloudstack_csi_driver.Driver.Csi.{
  CreateVolumeRequest, TopologyRequirement, value, disk_offering_key,
}
use cloudstack_csi_driver.Driver.Sizes.{determine_size}
use cloudstack_csi_driver.Driver.Controller.{Server, with_volume_lock}
use cloudstack_csi_driver.Driver.Controller.Create.{
  create_volume, provision, new_volume, create_from_snapshot, snapshot_id,
}
use cloudstack_csi_driver.Driver.Controller.Create.Existing.{provision-new}

module _ (L : Sets) (C : Connector) where
  abbrev elsewhere : CreateVolumeRequest → Option TopologyRequirement → CreateVolumeRequest
  elsewhere req r = record req { accessibility_requirements = r }

  new_volume_anywhere :
      (draw : ℕ) (req : CreateVolumeRequest) (r : Option TopologyRequirement) (ps : Map String)
      (offering : String) (s : Server L C)
      → snapshot_id req.volume_content_source ≢ ""
      → new_volume L C draw req ps offering s ≡ new_volume L C draw (elsewhere req r) ps offering s
  unfolding new_volume create_from_snapshot
  new_volume_anywhere draw req r ps offering s ne =
      elim (Option-cases (determine_size req.capacity_range)) [
        | inl e ↦ ground arith
        | inr (size, e) ↦ ground arith
      ]

  provision_anywhere :
      (draw : ℕ) (req : CreateVolumeRequest) (r : Option TopologyRequirement) (ps : Map String)
      (offering : String) (s : Server L C) (c : C.State) (e : Err)
      → snapshot_id req.volume_content_source ≢ ""
      → C.get_volume_by_name req.name s.cloud ≡ err e c
      → is_not_found e ≡ true
      → provision L C draw req ps offering s ≡ provision L C draw (elsewhere req r) ps offering s
  provision_anywhere draw req r ps offering s c e ne gone missing =
      provision-new L C draw req ps offering s c e gone missing
      ∙ (new_volume_anywhere draw req r ps offering (record s { cloud = c }) ne
          ∙ sym (provision-new L C draw (elsewhere req r) ps offering s c e gone missing))

  -- Where no volume of the name is found, and the request names a snapshot, `CreateVolume` has the same
  -- answer and the same effects whatever topology the request requires.
  pub create_volume_anywhere :
      (draw : ℕ) (req : CreateVolumeRequest) (r : Option TopologyRequirement) (s : Server L C)
      (c : C.State) (e : Err)
      → snapshot_id req.volume_content_source ≢ ""
      → C.get_volume_by_name req.name s.cloud ≡ err e c
      → is_not_found e ≡ true
      → create_volume L C draw req s
        ≡ create_volume L C draw (record req { accessibility_requirements = r }) s
  unfolding create_volume with_volume_lock VolumeLocks.try_acquire
  create_volume_anywhere draw req r s c e ne gone missing = elim (Option-cases req.parameters) [
    | inl none_given ↦ ground arith
    | inr (ps, given) ↦ ground (
      arith,
      provision_anywhere draw req r ps (value disk_offering_key ps)
          (record s { volume_locks = L.insert s.volume_locks req.name }) c e ne gone missing,
    )
  ]
