-- ===== src/Syncer/Run.antt =====
-- `syncOffering` and `Run` of pkg/syncer/run.go.
pub mod Laws
pub mod Deletion
pub mod Store
pub mod Settles
pub mod Frame
pub mod Loop
pub mod Converges
pub mod Stale
use cloudstack_csi_driver.Prelude.Strconv.{text_of}
use cloudstack_csi_driver.Syncer.Names.{create_storage_class_name}
use cloudstack_csi_driver.Prelude.{
  ℕ, String, Bool, true, false, not, Option, none, some, List, [], ◌∷◌, ◌++◌, ◌=?◌, if◌then◌else◌,
  codes, ◌<>◌,
}
use cloudstack_csi_driver.Prelude.Maps.{Map}
use cloudstack_csi_driver.Prelude.Prog.{Prog, Outcome, ok, err}
use cloudstack_csi_driver.Syncer.Classes.{
  StorageClass, Problem, check_storage_class, new_storage_class, to_delete, is_expansion,
}

pub record DiskOffering : Type 0 where
  pub id : String
  pub name : String
  pub is_customized : Bool

-- The fields of `syncer`, the clients aside.
pub record Syncer : Type 0 where
  pub labels_set : Map String
  pub name_prefix : String
  pub delete : Bool
  pub volume_expansion : Bool

-- The loop over the storage classes that are listed.
abbrev pub names_of : List StorageClass → List String
names_of [] = []
names_of (sc ∷ scs) = sc.name ∷ names_of scs

-- The clients of Kubernetes and of CloudStack, the label functions of k8s.io/apimachinery, and the
-- removal of accents, on code points.
pub record Cluster : Type 1 where
  pub State : Type 0
  pub Error : Type 0
  pub is_not_found : Error → Bool
  pub list_classes : Map String → Prog Error State (List StorageClass)
  pub get_class : String → Prog Error State StorageClass
  pub create_class : StorageClass → Prog Error State (Unit {0})
  pub update_class : StorageClass → Prog Error State (Unit {0})
  pub delete_class : String → Prog Error State (Unit {0})
  pub list_offerings : Prog Error State (List DiskOffering)
  pub matches : Map String → Map String → Bool
  pub merge : Map String → Map String → Map String
  pub normalize : List ℕ → Option (List ℕ)

module _ (K : Cluster) where
  pub data SyncError : Type 0 where
    failed : K.Error → SyncError
    incompatible : List Problem → SyncError

  -- A name, which may be empty, and an error or none: the code returns both at once.
  abbrev pub Synced : Type 0
  Synced = String × Option SyncError

  -- `return name, err` after a call.
  abbrev pub named : String → Outcome K.Error K.State (Unit {0}) → Synced × K.State
  named name (ok u s) = ((name, none), s)
  named name (err e s) = ((name, some (failed e)), s)

  -- The labels of a compatible storage class.
  unfoldable pub sync_labels : Syncer → String → StorageClass → K.State → Synced × K.State
  sync_labels y name sc s =
      if not (K.matches y.labels_set sc.labels)
      then named name (K.update_class (record sc { labels = K.merge sc.labels y.labels_set }) s)
      else ((name, none), s)

  abbrev pub checked : Syncer → String → StorageClass → List Problem → K.State → Synced × K.State
  checked y name sc [] s = sync_labels y name sc s
  checked y name sc (p ∷ ps) s = ((name, some (incompatible (p ∷ ps))), s)

  -- A storage class whose expansion is as expected.
  unfoldable pub sync_checked :
      Syncer → String → DiskOffering → StorageClass → K.State → Synced × K.State
  sync_checked y name offering sc s =
      checked y name sc (check_storage_class sc offering.id y.volume_expansion) s

  abbrev pub updated :
      Syncer
      → String
      → DiskOffering
      → StorageClass
      → Outcome K.Error K.State (Unit {0})
      → Synced × K.State
  updated y name offering sc (ok u s) = sync_checked y name offering sc s
  updated y name offering sc (err e s) = (("", some (failed e)), s)

  -- A storage class that exists.
  unfoldable pub sync_existing :
      Syncer → String → DiskOffering → StorageClass → K.State → Synced × K.State
  sync_existing y name offering sc s =
      if is_expansion sc.allow_volume_expansion y.volume_expansion
      then sync_checked y name offering sc s
      else (let sc' = record sc { allow_volume_expansion = some y.volume_expansion } in
          updated y name offering sc' (K.update_class sc' s))

  abbrev pub got :
      Syncer → String → DiskOffering → Outcome K.Error K.State StorageClass → Synced × K.State
  got y name offering (ok sc s) = sync_existing y name offering sc s
  got y name offering (err e s) =
      if K.is_not_found e
      then named name
          (K.create_class (new_storage_class name y.labels_set offering.id y.volume_expansion) s)
      else (("", some (failed e)), s)

  abbrev pub name_of : Syncer → DiskOffering → String
  name_of y offering =
      elim (create_storage_class_name K.normalize (codes (y.name_prefix <> offering.name))) [
        | none ↦ offering.id
        | some name ↦ text_of name
      ]

  unfoldable pub sync_offering : Syncer → DiskOffering → K.State → Synced × K.State
  sync_offering y offering s =
      if not offering.is_customized
      then (("", none), s)
      else (let name = name_of y offering in got y name offering (K.get_class name s))

  abbrev pub add_name : String → List String → List String
  add_name name names = if name =? "" then names else name ∷ names

  abbrev pub add_error : Option SyncError → List SyncError → List SyncError
  add_error none errs = errs
  add_error (some e) errs = e ∷ errs

  -- The loop over the offerings: the new names, and the errors.
  unfoldable pub sync_all :
      Syncer → List DiskOffering → K.State → (List String × List SyncError) × K.State
  sync_all y [] s = (([], []), s)
  sync_all y (o ∷ os) s =
      let ((name, e), s₁) = sync_offering y o s in
      let ((names, errs), s₂) = sync_all y os s₁ in ((add_name name names, add_error e errs), s₂)

  abbrev pub delete_one : Outcome K.Error K.State (Unit {0}) → Option SyncError × K.State
  delete_one (ok u s) = (none, s)
  delete_one (err e s) = (some (failed e), s)

  -- The loop over the names to delete.
  unfoldable pub delete_all : List String → K.State → List SyncError × K.State
  delete_all [] s = ([], s)
  delete_all (name ∷ names) s =
      let (e, s₁) = delete_one (K.delete_class name s) in
      let (errs, s₂) = delete_all names s₁ in (add_error e errs, s₂)

  -- After the two lists: the errors that are collected, in order.
  unfoldable pub reconcile :
      Syncer → List StorageClass → List DiskOffering → K.State → List SyncError × K.State
  reconcile y old offerings s =
      let ((names, errs), s₁) = sync_all y offerings s in
      if y.delete
      then (let (more, s₂) = delete_all (to_delete (names_of old) names) s₁ in (errs ++ more, s₂))
      else (errs, s₁)

  abbrev pub offered :
      Syncer
      → List StorageClass
      → Outcome K.Error K.State (List DiskOffering)
      → List SyncError × K.State
  offered y old (ok offerings s) = reconcile y old offerings s
  offered y old (err e s) = (failed e ∷ [], s)

  abbrev pub listed :
      Syncer → Outcome K.Error K.State (List StorageClass) → List SyncError × K.State
  listed y (ok old s) = offered y old (K.list_offerings s)
  listed y (err e s) = (failed e ∷ [], s)

  -- No error is the answer nil.
  unfoldable pub run : Syncer → K.State → List SyncError × K.State
  run y s = listed y (K.list_classes y.labels_set s)
