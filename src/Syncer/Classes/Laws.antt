-- ===== src/Syncer/Classes/Laws.antt =====
-- Which storage classes are compatible, and which are deleted.
use cloudstack_csi_driver.Prelude.{
  String, Bool, not, ◌&&◌, some, List, [], ◌∷◌, ◌≡◌, ◌↔◌, refl, arith, true,
}
use cloudstack_csi_driver.Prelude.Maps.{Map, lookup}
use cloudstack_csi_driver.Driver.Csi.{disk_offering_key}
use cloudstack_csi_driver.Syncer.Classes.{
  StorageClass, check_storage_class, new_storage_class, to_delete, found, wait_for_first_consumer,
  delete,
}

-- A storage class is compatible with an offering.
pub record IsCompatible (sc : StorageClass) (offering_id : String) (expansion : Bool) : Type 0 where
  pub offering : lookup disk_offering_key sc.parameters ≡ some offering_id
  pub policy : sc.reclaim_policy ≡ some delete
  pub mode : sc.volume_binding_mode ≡ some wait_for_first_consumer
  pub expandable : sc.allow_volume_expansion ≡ some expansion

-- The check finds no problem exactly if the storage class names the offering, deletes its volumes,
-- binds them to the first consumer, and allows expansion as expected; and it finds none in the
-- storage class that is made for the offering.
pub check_storage_class_iff :
    (sc : StorageClass) (offering_id : String) (expansion : Bool) (name : String)
    (labels : Map String)
    → ((check_storage_class sc offering_id expansion ≡ []) ↔ IsCompatible sc offering_id expansion)
      × (check_storage_class
            (new_storage_class name labels offering_id expansion)
            offering_id
            expansion
          ≡ [])
unfolding check_storage_class new_storage_class lookup
check_storage_class_iff sc offering_id expansion name labels =
    ((λ h. ground arith, λ c. ground arith), ground arith)

-- A name is deleted exactly if it is one of the old names and none of the new ones.
pub to_delete_lem :
    (name : String) (old_sc new_sc : List String)
    → found name (to_delete old_sc new_sc) ≡ (found name old_sc && not (found name new_sc))
unfolding to_delete
to_delete_lem name [] new_sc = refl
to_delete_lem name (old ∷ old_sc) new_sc = ground (arith, to_delete_lem name old_sc new_sc)

-- Nothing is deleted if every old name is a new one.
pub to_delete-nil :
    (old_sc new_sc : List String)
    → ((name : String) → found name old_sc ≡ true → found name new_sc ≡ true)
    → to_delete old_sc new_sc ≡ []
unfolding to_delete
to_delete-nil [] new_sc h = refl
to_delete-nil (old ∷ old_sc) new_sc h =
    ground (arith, h old, to_delete-nil old_sc new_sc (λ name there. h name (ground arith)))
