-- ===== src/Syncer/Run/Laws.antt =====
-- A second synchronisation of an offering.
use cloudstack_csi_driver.Prelude.{true, none, ◌≡◌, arith}
use cloudstack_csi_driver.Prelude.Prog.{ok, err}
use cloudstack_csi_driver.Syncer.Classes.{StorageClass, new_storage_class}
use cloudstack_csi_driver.Syncer.Classes.Laws.{check_storage_class_iff}
use cloudstack_csi_driver.Syncer.Run.{
  Cluster, Syncer, DiskOffering, sync_offering, sync_existing, sync_checked, sync_labels, name_of,
}

module _ (K : Cluster) where
  abbrev pub class_of : Syncer → DiskOffering → StorageClass
  class_of y o = new_storage_class (name_of K y o) y.labels_set o.id y.volume_expansion

  -- For an offering of customized size whose storage class is not found: if the cluster creates the
  -- class, and is then asked for it and answers with it, unchanged, and the set of labels matches
  -- itself, then the synchronisation answers with the name of the class and no error, and a second
  -- one does so, too, and leaves the state of the cluster as it is.
  pub sync_offering_twice :
      (y : Syncer) (o : DiskOffering) (s s₁ s₂ : K.State) (e : K.Error)
      → o.is_customized ≡ true
      → K.get_class (name_of K y o) s ≡ err e s₁
      → K.is_not_found e ≡ true
      → K.create_class (class_of y o) s₁ ≡ ok tt s₂
      → K.get_class (name_of K y o) s₂ ≡ ok (class_of y o) s₂
      → K.matches y.labels_set y.labels_set ≡ true
      → (sync_offering K y o s ≡ ((name_of K y o, none), s₂))
        × (sync_offering K y o s₂ ≡ ((name_of K y o, none), s₂))
  unfolding sync_offering sync_existing sync_checked sync_labels new_storage_class
  sync_offering_twice y o s s₁ s₂ e custom gone missing made kept own =
      let fine =
        (check_storage_class_iff (class_of y o) o.id y.volume_expansion (name_of K y o)
          y.labels_set).1 in
      (ground arith, ground (arith, fine))
