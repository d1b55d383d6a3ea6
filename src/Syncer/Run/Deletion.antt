-- ===== src/Syncer/Run/Deletion.antt =====
-- Which storage classes a run deletes.
use cloudstack_csi_driver.Prelude.{true, false, [], ◌∷◌, ◌≡◌, arith}
use cloudstack_csi_driver.Prelude.Prog.{ok, err}
use cloudstack_csi_driver.Syncer.Classes.{StorageClass, to_delete}
use cloudstack_csi_driver.Syncer.Run.{
  Cluster, Syncer, DiskOffering, failed, run, reconcile, sync_all, delete_all, sync_offering,
  name_of,
}

module _ (K : Cluster) where
  reconcile_deletes :
      (y : Syncer) (s s₁ s₂ : K.State) (sc : StorageClass) (o : DiskOffering) (e : K.Error)
      → y.delete ≡ true
      → o.is_customized ≡ true
      → name_of K y o ≡ sc.name
      → K.get_class sc.name s ≡ err e s₁
      → K.is_not_found e ≡ false
      → K.delete_class sc.name s₁ ≡ ok tt s₂
      → reconcile K y (sc ∷ []) (o ∷ []) s ≡ (failed e ∷ [], s₂)
  unfolding reconcile sync_all delete_all sync_offering to_delete
  reconcile_deletes y s s₁ s₂ sc o e on custom same gone other del = ground arith

  -- Where deletion is on: if the one storage class of the labels is that of the one disk offering, and
  -- the cluster, asked for it, fails with an error other than that it is not found, and then deletes
  -- what it is told to, then the run deletes the class, though the offering is there.
  pub run_deletes :
      (y : Syncer) (s s₁ s₂ s₃ s₄ : K.State) (sc : StorageClass) (o : DiskOffering) (e : K.Error)
      → y.delete ≡ true
      → o.is_customized ≡ true
      → name_of K y o ≡ sc.name
      → K.list_classes y.labels_set s ≡ ok (sc ∷ []) s₁
      → K.list_offerings s₁ ≡ ok (o ∷ []) s₂
      → K.get_class sc.name s₂ ≡ err e s₃
      → K.is_not_found e ≡ false
      → K.delete_class sc.name s₃ ≡ ok tt s₄
      → run K y s ≡ (failed e ∷ [], s₄)
  unfolding run
  run_deletes y s s₁ s₂ s₃ s₄ sc o e on custom same classes offerings gone other del =
      ground (arith, reconcile_deletes y s₂ s₃ s₄ sc o e on custom same gone other del)
