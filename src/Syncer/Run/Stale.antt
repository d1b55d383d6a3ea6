-- ===== src/Syncer/Run/Stale.antt =====
-- `syncOffering` of pkg/syncer/run.go on a storage class that needs two updates, the second of which it
-- sends with the version of the class before the first.
use cloudstack_csi_driver.Prelude.{
  String, true, false, none, some, List, [], ◌∷◌, ◌≡◌, ◌≢◌, inl, inr, arith, Bool-cases, ◌⊎◌, Bool,
}
use cloudstack_csi_driver.Prelude.Prog.{ok, Outcome-cases}
use cloudstack_csi_driver.Syncer.Classes.{StorageClass, Problem, check_storage_class, is_expansion}
use cloudstack_csi_driver.Syncer.Run.{
  Cluster, Syncer, DiskOffering, sync_offering, sync_existing, sync_checked, sync_labels, name_of,
  checked,
}
use cloudstack_csi_driver.Syncer.Run.Store.{Store}

-- The optimistic concurrency of Kubernetes: a class that is there has a version; an update with a
-- version is refused unless it is that of the class; and one that changes the expansion gives the
-- class another version.
pub record IsOptimistic {K : Cluster} (T : Store K) : Type 0 where
  pub versioned :
      (n : String) (s : K.State) (sc : StorageClass)
      → T.classes s n ≡ some sc
      → sc.resource_version ≢ ""
  pub current :
      (sc old : StorageClass) (s t : K.State)
      → T.classes s sc.name ≡ some old
      → K.update_class sc s ≡ ok tt t
      → (sc.resource_version ≡ "") ⊎ (sc.resource_version ≡ old.resource_version)
  pub renewed :
      (sc old : StorageClass) (s t : K.State)
      → T.classes s sc.name ≡ some old
      → K.update_class sc s ≡ ok tt t
      → sc.allow_volume_expansion ≢ old.allow_volume_expansion
      → T.version t sc.name ≢ old.resource_version

is_expansion_of_same :
    (sc : StorageClass) (expansion : Bool)
    → some expansion ≡ sc.allow_volume_expansion
    → is_expansion sc.allow_volume_expansion expansion ≡ true
is_expansion_of_same sc true h = ground arith
is_expansion_of_same sc false h = ground arith

module _ {K : Cluster} (T : Store K) (y : Syncer) (V : IsOptimistic T) where
  labels_refused :
      (nm v : String) (sc : StorageClass) (s t : K.State) (name : String)
      → T.classes s nm ≡ some (record sc { resource_version = v })
      → sc.resource_version ≢ ""
      → v ≢ sc.resource_version
      → K.matches y.labels_set sc.labels ≡ false
      → sync_labels K y nm sc s ≢ ((name, none), t)
  unfolding sync_labels
  labels_refused nm v sc s t name there set stale bare h =
      let sc' = record sc { labels = K.merge sc.labels y.labels_set } in
      elim (Outcome-cases (K.update_class sc' s)) [
        | inr (e, u, f) ↦ absurd (ground arith)
        | inl (_, u, f) ↦
            let own = T.named nm s _ there in
            elim (V.current sc' (record sc { resource_version = v }) s u (ground (arith, own)) f) [
              | inl empty ↦ set empty
              | inr same ↦ absurd (ground arith)
            ]
      ]

  checked_refused :
      (nm v : String) (sc : StorageClass) (problems : List Problem) (s t : K.State) (name : String)
      → T.classes s nm ≡ some (record sc { resource_version = v })
      → sc.resource_version ≢ ""
      → v ≢ sc.resource_version
      → K.matches y.labels_set sc.labels ≡ false
      → checked K y nm sc problems s ≢ ((name, none), t)
  checked_refused nm v sc [] s t name there set stale bare h =
      labels_refused nm v sc s t name there set stale bare h
  checked_refused nm v sc (p ∷ ps) s t name there set stale bare h = absurd (ground arith)

  -- On a cluster with optimistic concurrency: where the class of an offering of customized size has
  -- neither the wanted expansion nor the labels, its synchronisation reports an error, whatever the
  -- cluster answers otherwise: one run does not make both updates.
  pub two_updates_refused :
      (o : DiskOffering) (sc : StorageClass) (s t : K.State) (name : String)
      → o.is_customized ≡ true
      → T.classes s (name_of K y o) ≡ some sc
      → is_expansion sc.allow_volume_expansion y.volume_expansion ≡ false
      → K.matches y.labels_set sc.labels ≡ false
      → sync_offering K y o s ≢ ((name, none), t)
  unfolding sync_offering sync_existing sync_checked
  two_updates_refused o sc s t name custom there differs bare h =
      let nm = name_of K y o in
      let sc' = record sc { allow_volume_expansion = some y.volume_expansion } in
      let own = T.named nm s sc there in
      let set = V.versioned nm s sc there in
      elim (Outcome-cases (K.get_class nm s)) [
        | inr (e, u, f) ↦ elim (Bool-cases (K.is_not_found e)) [
          | inr other ↦ absurd (ground arith)
          | inl missing ↦ absurd (ground (arith, T.missed nm s u e f missing))
        ]
        | inl (got, u, f) ↦ elim (Outcome-cases (K.update_class sc' s)) [
          | inr (e, w, g) ↦ absurd (ground (arith, T.got nm s u got f))
          | inl (_, w, g) ↦
              let changed : sc'.allow_volume_expansion ≢ sc.allow_volume_expansion =
                λ e. absurd (ground (arith, is_expansion_of_same sc y.volume_expansion e)) in
              checked_refused nm (T.version w nm) sc'
                (check_storage_class sc' o.id y.volume_expansion) w t name
                (ground (arith, own, T.replaced sc' s w nm g)) set
                (λ e. V.renewed sc' sc s w (ground (arith, own)) g changed (ground (arith, own)))
                bare (ground (arith, T.got nm s u got f))
        ]
      ]
