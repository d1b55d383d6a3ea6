-- ===== src/Syncer/Classes.antt =====
-- `checkStorageClass` and `toDelete` of pkg/syncer/run.go.
pub mod Laws
use cloudstack_csi_driver.Prelude.{
  String, Bool, true, false, not, Option, none, some, List, [], ◌∷◌, ◌++◌, ◌=?◌, if◌then◌else◌,
}
use cloudstack_csi_driver.Prelude.Maps.{Map, lookup}
use cloudstack_csi_driver.Driver.Csi.{driver_name, disk_offering_key}

pub data BindingMode : Type 0 where
  wait_for_first_consumer : BindingMode
  other_mode : String → BindingMode

pub data ReclaimPolicy : Type 0 where
  delete : ReclaimPolicy
  other_policy : String → ReclaimPolicy

-- The fields of a storage class that the program reads or writes; and the version, which it sends back
-- with an update as it got it.
pub record StorageClass : Type 0 where
  pub name : String
  pub resource_version : String
  pub labels : Map String
  pub provisioner : String
  pub volume_binding_mode : Option BindingMode
  pub reclaim_policy : Option ReclaimPolicy
  pub allow_volume_expansion : Option Bool
  pub parameters : Map String

-- Why a storage class is not compatible, in place of the message.
pub data Problem : Type 0 where
  missing_parameter wrong_offering wrong_reclaim wrong_binding wrong_expansion : Problem

abbrev pub is_delete : Option ReclaimPolicy → Bool
is_delete none = false
is_delete (some delete) = true
is_delete (some (other_policy name)) = false

abbrev pub is_wait : Option BindingMode → Bool
is_wait none = false
is_wait (some wait_for_first_consumer) = true
is_wait (some (other_mode name)) = false

abbrev pub same : Bool → Bool → Bool
same true b = b
same false b = not b

-- `sc.AllowVolumeExpansion == nil || *sc.AllowVolumeExpansion != expected` does not hold.
abbrev pub is_expansion : Option Bool → Bool → Bool
is_expansion none expected = false
is_expansion (some b) expected = same b expected

abbrev pub unless : Bool → Problem → List Problem
unless true problem = []
unless false problem = problem ∷ []

abbrev pub check_offering : Option String → String → List Problem
check_offering none expected = missing_parameter ∷ []
check_offering (some id) expected = unless (id =? expected) wrong_offering

-- The problems that are collected; none is the answer nil.
unfoldable pub check_storage_class : StorageClass → String → Bool → List Problem
check_storage_class sc offering_id expansion =
    check_offering (lookup disk_offering_key sc.parameters) offering_id
    ++ (unless (is_delete sc.reclaim_policy) wrong_reclaim
        ++ (unless (is_wait sc.volume_binding_mode) wrong_binding
            ++ unless (is_expansion sc.allow_volume_expansion expansion) wrong_expansion))

-- The storage class that is made for an offering.
unfoldable pub new_storage_class : String → Map String → String → Bool → StorageClass
new_storage_class name labels offering_id expansion = record {
  name = name;
  resource_version = "";
  labels = labels;
  provisioner = driver_name;
  volume_binding_mode = some wait_for_first_consumer;
  reclaim_policy = some delete;
  allow_volume_expansion = some expansion;
  parameters = (disk_offering_key, offering_id) ∷ [];
}

-- The inner loop of `toDelete`.
abbrev pub found : String → List String → Bool
found old [] = false
found old (new ∷ rest) = if new =? old then true else found old rest

unfoldable pub to_delete : List String → List String → List String
to_delete [] new_sc = []
to_delete (old ∷ old_sc) new_sc =
    let rest = to_delete old_sc new_sc in if not (found old new_sc) then old ∷ rest else rest
