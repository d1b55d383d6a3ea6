-- ===== src/Syncer/Run/Store.antt =====
-- What the synchronisation of pkg/syncer/run.go relies on in a cluster: the documented behaviour of
-- the API of storage classes, of the selectors and merges of labels, and of the list of offerings.
use cloudstack_csi_driver.Prelude.{
  String, true, Option, none, some, List, ◌≡◌, ◌↔◌, ◌=?◌, if◌then◌else◌,
}
use cloudstack_csi_driver.Prelude.Maps.{Map}
use cloudstack_csi_driver.Prelude.Prog.{ok, err}
use cloudstack_csi_driver.Syncer.Classes.{StorageClass, found}
use cloudstack_csi_driver.Syncer.Run.{Cluster, DiskOffering, names_of}

-- The classes of a state by their names. A call may fail, and is described where it does not; a read
-- changes nothing. A write that is done gives the class a version. Nothing else changes the
-- classes or the offerings meanwhile.
pub record Store (K : Cluster) : Type 0 where
  pub classes : K.State → String → Option StorageClass
  pub version : K.State → String → String
  pub catalogue : List DiskOffering
  pub listing : Map String → K.State → List StorageClass
  pub offered :
      (s t : K.State) (os : List DiskOffering)
      → K.list_offerings s ≡ ok os t
      → (os ≡ catalogue) × (t ≡ s)
  pub listed :
      (labels : Map String) (s t : K.State) (scs : List StorageClass)
      → K.list_classes labels s ≡ ok scs t
      → (scs ≡ listing labels s) × (t ≡ s)
  pub got :
      (n : String) (s t : K.State) (sc : StorageClass)
      → K.get_class n s ≡ ok sc t
      → (classes s n ≡ some sc) × (t ≡ s)
  pub missed :
      (n : String) (s t : K.State) (e : K.Error)
      → K.get_class n s ≡ err e t
      → K.is_not_found e ≡ true
      → (classes s n ≡ none) × (t ≡ s)
  pub created :
      (sc : StorageClass) (s t : K.State) (n : String)
      → K.create_class sc s ≡ ok tt t
      → classes t n ≡ (
          if n =? sc.name then some (record sc { resource_version = version t n }) else classes s n)
  pub replaced :
      (sc : StorageClass) (s t : K.State) (n : String)
      → K.update_class sc s ≡ ok tt t
      → classes t n ≡ (
          if n =? sc.name then some (record sc { resource_version = version t n }) else classes s n)
  pub deleted :
      (m : String) (s t : K.State) (n : String)
      → K.delete_class m s ≡ ok tt t
      → classes t n ≡ (if n =? m then none else classes s n)
  -- A class is kept under its name, which is not empty.
  pub named : (n : String) (s : K.State) (sc : StorageClass) → classes s n ≡ some sc → sc.name ≡ n
  pub unnamed : (s : K.State) → classes s "" ≡ none
  -- The selector of labels picks out the classes that are listed.
  pub listed_iff :
      (labels : Map String) (s : K.State) (n : String)
      → (found n (names_of (listing labels s)) ≡ true)
        ↔ ((sc : StorageClass) × (classes s n ≡ some sc) × (K.matches labels sc.labels ≡ true))
  pub own : (labels : Map String) → K.matches labels labels ≡ true
  pub merged : (old labels : Map String) → K.matches labels (K.merge old labels) ≡ true

-- The lists answer in a state, and the look-up of each class that is there.
pub record IsReadable {K : Cluster} (T : Store K) (labels : Map String) (s : K.State) : Type 0 where
  pub offers : K.list_offerings s ≡ ok T.catalogue s
  pub lists : K.list_classes labels s ≡ ok (T.listing labels s) s
  pub gets : (n : String) (sc : StorageClass) → T.classes s n ≡ some sc → K.get_class n s ≡ ok sc s
