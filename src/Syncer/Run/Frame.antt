-- ===== src/Syncer/Run/Frame.antt =====
-- `syncOffering` of pkg/syncer/run.go on a store of storage classes: what one call leaves alone.
use cloudstack_csi_driver.Prelude.{
  String, true, false, none, some, List, [], ◌∷◌, ◌≡◌, ◌=?◌, inl, inr, arith, Bool-cases,
}
use cloudstack_csi_driver.Prelude.Prog.{Outcome-cases}
use cloudstack_csi_driver.Syncer.Classes.{
  StorageClass, Problem, check_storage_class, new_storage_class, is_expansion,
}
use cloudstack_csi_driver.Syncer.Run.{
  Cluster, Syncer, DiskOffering, sync_offering, sync_existing, sync_checked, sync_labels, name_of,
  checked,
}
use cloudstack_csi_driver.Syncer.Run.Store.{Store}
use cloudstack_csi_driver.Syncer.Run.Settles.{Holds, is_expansion_of_checked}

module _ {K : Cluster} (T : Store K) (y : Syncer) where
  module _ (n nm : String) (other : (n =? nm) ≡ false) where
    labels-other :
        (sc : StorageClass) (s t : K.State) (name : String)
        → sc.name ≡ nm
        → sync_labels K y nm sc s ≡ ((name, none), t)
        → T.classes t n ≡ T.classes s n
    unfolding sync_labels
    labels-other sc s t name own h =
        let sc' = record sc { labels = K.merge sc.labels y.labels_set } in
        elim (Outcome-cases (K.update_class sc' s)) [
          | inr (e, u, f) ↦ ground arith
          | inl (_, u, f) ↦ ground (arith, T.replaced sc' s u n f)
        ]

    checked-other :
        (sc : StorageClass) (problems : List Problem) (s t : K.State) (name : String)
        → sc.name ≡ nm
        → checked K y nm sc problems s ≡ ((name, none), t)
        → T.classes t n ≡ T.classes s n
    checked-other sc [] s t name own h = labels-other sc s t name own h
    checked-other sc (p ∷ ps) s t name own h = absurd (ground arith)

    existing-other :
        (o : DiskOffering) (sc : StorageClass) (s t : K.State) (name : String)
        → sc.name ≡ nm
        → sync_existing K y nm o sc s ≡ ((name, none), t)
        → T.classes t n ≡ T.classes s n
    unfolding sync_existing sync_checked
    existing-other o sc s t name own h =
        let sc' = record sc { allow_volume_expansion = some y.volume_expansion } in
        let problems = check_storage_class sc o.id y.volume_expansion in
        let problems' = check_storage_class sc' o.id y.volume_expansion in
        elim (Bool-cases (is_expansion sc.allow_volume_expansion y.volume_expansion)) [
          | inl m ↦ checked-other sc problems s t name own (ground arith)
          | inr m ↦ elim (Outcome-cases (K.update_class sc' s)) [
            | inr (e, u, f) ↦ absurd (ground arith)
            | inl (_, u, f) ↦
                ground (arith, checked-other sc' problems' u t name own, T.replaced sc' s u n f)
          ]
        ]

  -- A call without an error changes no class but that of the offering.
  pub sync_other :
      (o : DiskOffering) (s t : K.State) (name n : String)
      → (n =? name_of K y o) ≡ false
      → sync_offering K y o s ≡ ((name, none), t)
      → T.classes t n ≡ T.classes s n
  unfolding sync_offering new_storage_class
  sync_other o s t name n other h =
      let nm = name_of K y o in
      let sc' = new_storage_class nm y.labels_set o.id y.volume_expansion in
      elim (Bool-cases o.is_customized) [
        | inr fixed ↦ ground arith
        | inl custom ↦ elim (Outcome-cases (K.get_class nm s)) [
          | inl (sc, u, f) ↦
              let (there, same) = T.got nm s u sc f in
              existing-other n nm other o sc s t name (T.named nm s sc there) (ground arith)
          | inr (e, u, f) ↦ elim (Bool-cases (K.is_not_found e)) [
            | inr failed ↦ absurd (ground arith)
            | inl missing ↦
                let (gone, same) = T.missed nm s u e f missing in
                elim (Outcome-cases (K.create_class sc' s)) [
                  | inr (e', w, g) ↦ absurd (ground arith)
                  | inl (_, w, g) ↦ ground (arith, T.created sc' s w n g)
                ]
          ]
        ]
      ]

  -- Where the class of the offering is as wanted, but for the offering that it names, nothing is done.
  sync_still :
      (o : DiskOffering) (sc : StorageClass) (s t : K.State) (name : String)
      → T.classes s (name_of K y o) ≡ some sc
      → is_expansion sc.allow_volume_expansion y.volume_expansion ≡ true
      → K.matches y.labels_set sc.labels ≡ true
      → sync_offering K y o s ≡ ((name, none), t)
      → t ≡ s
  unfolding sync_offering sync_existing sync_checked sync_labels
  sync_still o sc s t name there expandable labelled run = elim (Bool-cases o.is_customized) [
    | inr fixed ↦ ground arith
    | inl custom ↦ elim (Outcome-cases (K.get_class (name_of K y o) s)) [
      | inl (sc', u, f) ↦ ground (arith, T.got (name_of K y o) s u sc' f)
      | inr (e, u, f) ↦ elim (Bool-cases (K.is_not_found e)) [
        | inr failed ↦ absurd (ground arith)
        | inl missing ↦ absurd (ground (arith, T.missed (name_of K y o) s u e f missing))
      ]
    ]
  ]

  -- Nor one that is compatible with some offering and has the labels.
  pub sync_same :
      (o p : DiskOffering) (s t : K.State) (name : String)
      → sync_offering K y o s ≡ ((name, none), t)
      → Holds T y p s
      → Holds T y p t
  sync_same o p s t name run h = record {
    sc = h.sc;
    compatible = h.compatible;
    labelled = h.labelled;
    held = elim (Bool-cases (name_of K y p =? name_of K y o)) [
      | inr other ↦ ground (arith, h.held, sync_other o s t name (name_of K y p) other run)
      | inl same ↦ ground (
        arith,
        h.held,
        sync_still o h.sc s t name (ground (arith, h.held))
            (is_expansion_of_checked h.sc p.id y.volume_expansion h.compatible) h.labelled run,
      )
    ];
  }
