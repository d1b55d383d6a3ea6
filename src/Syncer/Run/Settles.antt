-- ===== src/Syncer/Run/Settles.antt =====
-- `syncOffering` of pkg/syncer/run.go on a store of storage classes: what one call leaves.
use cloudstack_csi_driver.Prelude.{
  String, Bool, true, none, some, List, [], ◌∷◌, ◌≡◌, inl, inr, refl, arith, Bool-cases, subst,
}
use cloudstack_csi_driver.Prelude.Maps.{Map}
use cloudstack_csi_driver.Prelude.Prog.{Outcome-cases, ok}
use cloudstack_csi_driver.Syncer.Classes.{
  StorageClass, Problem, check_storage_class, new_storage_class, is_expansion,
}
use cloudstack_csi_driver.Syncer.Classes.Laws.{check_storage_class_iff}
use cloudstack_csi_driver.Syncer.Run.{
  Cluster, Syncer, DiskOffering, sync_offering, sync_existing, sync_checked, sync_labels, name_of,
  checked,
}
use cloudstack_csi_driver.Syncer.Run.Store.{Store}

pub is_expansion_of_checked :
    (sc : StorageClass) (id : String) (expansion : Bool)
    → check_storage_class sc id expansion ≡ []
    → is_expansion sc.allow_volume_expansion expansion ≡ true
unfolding check_storage_class
is_expansion_of_checked sc id expansion h = ground arith

check-labels :
    (sc : StorageClass) (labels : Map String) (id : String) (expansion : Bool)
    → check_storage_class (record sc { labels = labels }) id expansion
      ≡ check_storage_class sc id expansion
unfolding check_storage_class
check-labels sc labels id expansion = refl

check-version :
    (sc : StorageClass) (v id : String) (expansion : Bool)
    → check_storage_class (record sc { resource_version = v }) id expansion
      ≡ check_storage_class sc id expansion
unfolding check_storage_class
check-version sc v id expansion = refl

module _ {K : Cluster} (T : Store K) (y : Syncer) where
  -- The storage class of an offering is there, compatible, and has the labels.
  pub record Holds (o : DiskOffering) (s : K.State) : Type 0 where
    pub sc : StorageClass
    pub held : T.classes s (name_of K y o) ≡ some sc
    pub compatible : check_storage_class sc o.id y.volume_expansion ≡ []
    pub labelled : K.matches y.labels_set sc.labels ≡ true

  -- Then the call does nothing.
  pub sync_settled :
      (o : DiskOffering) (s : K.State)
      → o.is_customized ≡ true
      → (h : Holds o s) → K.get_class (name_of K y o) s ≡ ok h.sc s
      → sync_offering K y o s ≡ ((name_of K y o, none), s)
  unfolding sync_offering sync_existing sync_checked sync_labels
  sync_settled o s custom h reads =
      ground (arith, reads, is_expansion_of_checked h.sc o.id y.volume_expansion h.compatible)

  -- The program's copy of the class of the offering, which may have another version.
  abbrev pub IsCopy : DiskOffering → StorageClass → String → K.State → Type 0
  IsCopy o sc v s = T.classes s (name_of K y o) ≡ some (record sc { resource_version = v })

  -- What an update leaves.
  updated-IsCopy :
      (o : DiskOffering) (sc : StorageClass) (s t : K.State)
      → sc.name ≡ name_of K y o
      → K.update_class sc s ≡ ok tt t
      → IsCopy o sc (T.version t (name_of K y o)) t
  updated-IsCopy o sc s t own h = ground (arith, own, T.replaced sc s t (name_of K y o) h)

  module _ (o : DiskOffering) (s t : K.State) (name v : String) where
    labels-Holds :
        (sc : StorageClass)
        → IsCopy o sc v s
        → check_storage_class sc o.id y.volume_expansion ≡ []
        → sync_labels K y (name_of K y o) sc s ≡ ((name, none), t)
        → Holds o t
    unfolding sync_labels
    labels-Holds sc there fine h =
        let sc' = record sc { labels = K.merge sc.labels y.labels_set } in
        elim (Bool-cases (K.matches y.labels_set sc.labels)) [
          | inl m ↦ record {
            sc = record sc { resource_version = v };
            held = ground arith;
            compatible = ground (arith, check-version sc v o.id y.volume_expansion);
            labelled = m;
          }
          | inr m ↦ elim (Outcome-cases (K.update_class sc' s)) [
            | inr (e, u, f) ↦ absurd (ground arith)
            | inl (_, u, f) ↦
                let v' = T.version u (name_of K y o) in
                let own = T.named (name_of K y o) s _ there in
                let left : IsCopy o sc' v' u = updated-IsCopy o sc' s u own f in
                record {
                  sc = record sc' { resource_version = v' };
                  held = ground (arith, left);
                  compatible = ground (
                    arith,
                    check-labels sc sc'.labels o.id y.volume_expansion,
                    check-version sc' v' o.id y.volume_expansion,
                  );
                  labelled = T.merged sc.labels y.labels_set;
                }
          ]
        ]

    checked-Holds :
        (sc : StorageClass) (problems : List Problem)
        → IsCopy o sc v s
        → check_storage_class sc o.id y.volume_expansion ≡ problems
        → checked K y (name_of K y o) sc problems s ≡ ((name, none), t)
        → Holds o t
    checked-Holds sc [] there fine h = labels-Holds sc there fine h
    checked-Holds sc (p ∷ ps) there fine h = absurd (ground arith)

  module _ (o : DiskOffering) (s t : K.State) (name : String) where
    existing-Holds :
        (sc : StorageClass)
        → T.classes s (name_of K y o) ≡ some sc
        → sync_existing K y (name_of K y o) o sc s ≡ ((name, none), t)
        → Holds o t
    unfolding sync_existing sync_checked
    existing-Holds sc there h =
        let sc' = record sc { allow_volume_expansion = some y.volume_expansion } in
        elim (Bool-cases (is_expansion sc.allow_volume_expansion y.volume_expansion)) [
          | inl m ↦
              checked-Holds o s t name sc.resource_version sc
                (check_storage_class sc o.id y.volume_expansion) there refl (ground arith)
          | inr m ↦ elim (Outcome-cases (K.update_class sc' s)) [
            | inr (e, u, f) ↦ absurd (ground arith)
            | inl (_, u, f) ↦
                checked-Holds o u t name (T.version u (name_of K y o)) sc'
                  (check_storage_class sc' o.id y.volume_expansion)
                  (updated-IsCopy o sc' s u (T.named (name_of K y o) s sc there) f) refl
                  (ground arith)
          ]
        ]

    existing-name :
        (sc : StorageClass)
        → sync_existing K y (name_of K y o) o sc s ≡ ((name, none), t)
        → name ≡ name_of K y o
    unfolding sync_existing sync_checked sync_labels
    existing-name sc h = ground arith

    created-Holds :
        (u : K.State)
        → K.create_class (new_storage_class (name_of K y o) y.labels_set o.id y.volume_expansion) s
          ≡ ok tt u
        → Holds o u
    unfolding new_storage_class
    created-Holds u f =
        let nm = name_of K y o in
        let sc = new_storage_class nm y.labels_set o.id y.volume_expansion in
        record {
          sc = record sc { resource_version = T.version u nm };
          held = ground (arith, T.created sc s u nm f);
          compatible = ground (
            arith,
            (check_storage_class_iff sc o.id y.volume_expansion nm y.labels_set).1,
            check-version sc (T.version u nm) o.id y.volume_expansion,
          );
          labelled = T.own y.labels_set;
        }

    -- A call without an error leaves the class of the offering.
    pub sync-Holds :
        o.is_customized ≡ true
        → sync_offering K y o s ≡ ((name, none), t)
        → (name ≡ name_of K y o) × Holds o t
    unfolding sync_offering
    sync-Holds custom h =
        let nm = name_of K y o in
        let sc' = new_storage_class nm y.labels_set o.id y.volume_expansion in
        elim (Outcome-cases (K.get_class nm s)) [
          | inl (sc, u, f) ↦
              let (there, same) = T.got nm s u sc f in
              (existing-name sc (ground arith), existing-Holds sc there (ground arith))
          | inr (e, u, f) ↦ elim (Bool-cases (K.is_not_found e)) [
            | inr other ↦ absurd (ground arith)
            | inl missing ↦
                let (gone, same) = T.missed nm s u e f missing in
                elim (Outcome-cases (K.create_class sc' s)) [
                  | inr (e', w, g) ↦ absurd (ground arith)
                  | inl (_, w, g) ↦
                      (ground arith, subst (Holds o) (ground arith) (created-Holds w g))
                ]
          ]
        ]
