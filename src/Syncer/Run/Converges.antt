-- ===== src/Syncer/Run/Converges.antt =====
-- `Run` of pkg/syncer/run.go on a store of storage classes: what a run leaves, and a second run.
use cloudstack_csi_driver.Prelude.{
  String, true, false, not, ◌&&◌, none, List, [], ◌∷◌, ◌++◌, ◌≡◌, inl, inr, arith, Bool-cases,
  if◌then◌else◌, ◌↔◌, ap, append-nil_parts, subst, sym,
}
use cloudstack_csi_driver.Prelude.Prog.{Outcome-cases}
use cloudstack_csi_driver.Syncer.Classes.{found, to_delete}
use cloudstack_csi_driver.Syncer.Classes.Laws.{to_delete_lem, to_delete-nil}
use cloudstack_csi_driver.Syncer.Run.{
  Cluster, Syncer, DiskOffering, SyncError, sync_all, delete_all, reconcile, run, name_of, names_of,
}
use cloudstack_csi_driver.Syncer.Run.Store.{Store, IsReadable}
use cloudstack_csi_driver.Syncer.Run.Loop.{
  offered_names, AllHold, sync_all-names, sync_all-AllHold, sync_all_other, sync_all_settled,
  delete_all-classes,
}

module _ {K : Cluster} (T : Store K) (y : Syncer) where
  -- The classes are those of the offerings: each of them has its class, and where deletion is on no
  -- other class has the labels.
  pub record IsSynced (s : K.State) : Type 0 where
    pub holding : AllHold T y T.catalogue s
    pub no_other :
        y.delete ≡ true
        → (n : String) → found n (names_of (T.listing y.labels_set s)) ≡ true
        → found n (offered_names T y T.catalogue) ≡ true

  -- A run without an error, taken apart after the two lists.
  reconcile_parts :
      (s t : K.State)
      → reconcile K y (T.listing y.labels_set s) T.catalogue s ≡ ([], t)
      → (names : List String) × (u : K.State) × (sync_all K y T.catalogue s ≡ ((names, []), u))
        × (y.delete ≡ false → t ≡ u)
        × (y.delete ≡ true
            → delete_all K (to_delete (names_of (T.listing y.labels_set s)) names) u ≡ ([], t))
  unfolding reconcile
  reconcile_parts s t h =
      let q = sync_all K y T.catalogue s in
      let d = delete_all K (to_delete (names_of (T.listing y.labels_set s)) q.0.0) q.1 in
      elim (Bool-cases y.delete) [
        | inr off ↦ (q.0.0, q.1, ground arith, λ _. ground arith, λ on. absurd cc)
        | inl on ↦
            let e : ◌≡◌ {A = List (SyncError K) × K.State} (q.0.1 ++ d.0, d.1) ([], t) =
              ground arith in
            let (none_synced, none_deleted) = append-nil_parts q.0.1 d.0 (ap (λ r. r.0) e) in
            let last : d.1 ≡ t = ap (λ r. r.1) e in
            (q.0.0, q.1, ground arith, λ off. absurd cc, λ _. ground arith)
      ]

  -- A run without an error, taken apart.
  run_parts :
      (s t : K.State)
      → run K y s ≡ ([], t)
      → (names : List String) × (u : K.State) × (sync_all K y T.catalogue s ≡ ((names, []), u))
        × (y.delete ≡ false → t ≡ u)
        × (y.delete ≡ true
            → delete_all K (to_delete (names_of (T.listing y.labels_set s)) names) u ≡ ([], t))
  unfolding run
  run_parts s t h = elim (Outcome-cases (K.list_classes y.labels_set s)) [
    | inr (e, s₁, f) ↦ absurd (ground arith)
    | inl (scs, s₁, f) ↦ elim (Outcome-cases (K.list_offerings s₁)) [
      | inr (e, s₂, g) ↦ absurd (ground arith)
      | inl (os, s₂, g) ↦
          let (listed, same₁) = T.listed y.labels_set s s₁ scs f in
          let (offered, same₂) = T.offered s₁ s₂ os g in reconcile_parts s t (ground arith)
    ]
  ]

  -- The classes that the loops leave, by their names.
  run-classes :
      (s t u : K.State) (names : List String) (n : String)
      → y.delete ≡ true
      → names ≡ offered_names T y T.catalogue
      → delete_all K (to_delete (names_of (T.listing y.labels_set s)) names) u ≡ ([], t)
      → T.classes t n ≡ (
          if found n (names_of (T.listing y.labels_set s))
            && not (found n (offered_names T y T.catalogue))
          then none
          else T.classes u n)
  run-classes s t u names n on e h =
      let old = names_of (T.listing y.labels_set s) in
      ground
        (arith, delete_all-classes T y (to_delete old names) u t n h, to_delete_lem n old names)

  AllHold-kept :
      (os : List DiskOffering) (u t : K.State)
      → ((n : String) → found n (offered_names T y os) ≡ true → T.classes t n ≡ T.classes u n)
      → AllHold T y os u
      → AllHold T y os t
  AllHold-kept [] u t same h = tt
  AllHold-kept (o ∷ os) u t same h = (
    λ custom.
        let p = h.0 custom in
        record {
          sc = p.sc;
          held = ground (arith, same (name_of K y o), p.held);
          compatible = p.compatible;
          labelled = p.labelled;
        },
    AllHold-kept os u t (λ n there. same n (ground arith)) h.1,
  )

  module _ (s t : K.State) (h : run K y s ≡ ([], t)) where
    run-AllHold : AllHold T y T.catalogue t
    run-AllHold =
        let (names, u, synced, off, on) = run_parts s t h in
        let there = sync_all-AllHold T y T.catalogue s u names synced in
        elim (Bool-cases y.delete) [
          | inr f ↦ subst (AllHold T y T.catalogue) (sym (off f)) there
          | inl f ↦
              AllHold-kept T.catalogue u t
                (λ n p. ground (
                  arith,
                  run-classes s t u names n f (sync_all-names T y T.catalogue s u names synced)
                      (on f),
                ))
                there
        ]

    -- A class with the labels that the run leaves is that of an offering.
    run-no_other :
        y.delete ≡ true
        → (n : String) → found n (names_of (T.listing y.labels_set t)) ≡ true
        → found n (offered_names T y T.catalogue) ≡ true
    run-no_other f n there =
        let (names, u, synced, off, on) = run_parts s t h in
        let (sc, left, labelled) = (T.listed_iff y.labels_set t n).0 there in
        elim (Bool-cases (found n (offered_names T y T.catalogue))) [
          | inl offered ↦ offered
          | inr absent ↦ ground (
            arith,
            run-classes s t u names n f (sync_all-names T y T.catalogue s u names synced) (on f),
            sync_all_other T y T.catalogue s u names n synced absent,
            (T.listed_iff y.labels_set s n).1,
            left,
            labelled,
          )
        ]

    run-other :
        (n : String)
        → found n (offered_names T y T.catalogue) ≡ false
        → (y.delete ≡ true → found n (names_of (T.listing y.labels_set s)) ≡ false)
        → T.classes t n ≡ T.classes s n
    run-other n absent unlisted =
        let (names, u, synced, off, on) = run_parts s t h in
        let kept = sync_all_other T y T.catalogue s u names n synced absent in
        elim (Bool-cases y.delete) [
          | inr f ↦ ground (arith, off f, kept)
          | inl f ↦ ground (
            arith,
            run-classes s t u names n f (sync_all-names T y T.catalogue s u names synced) (on f),
            unlisted f,
            kept,
          )
        ]

  -- A run that reports no error leaves each disk offering of customized size with a storage class that
  -- is compatible with it and has the labels; where deletion is on, it leaves no other class that has
  -- the labels; and a class that is not named for an offering stays as it is, unless deletion is on and
  -- it has the labels.
  pub run-IsSynced :
      (s t : K.State)
      → run K y s ≡ ([], t)
      → IsSynced t
        × ((n : String)
            → found n (offered_names T y T.catalogue) ≡ false
            → (y.delete ≡ true → found n (names_of (T.listing y.labels_set s)) ≡ false)
            → T.classes t n ≡ T.classes s n)
  run-IsSynced s t h =
      (record { holding = run-AllHold s t h; no_other = run-no_other s t h }, run-other s t h)

  run_synced : (s : K.State) → IsReadable T y.labels_set s → IsSynced s → run K y s ≡ ([], s)
  unfolding run reconcile delete_all
  run_synced s r i =
      let old = names_of (T.listing y.labels_set s) in
      let settled = sync_all_settled T y T.catalogue s r i.holding in
      elim (Bool-cases y.delete) [
        | inr off ↦ ground (arith, r.lists, r.offers, settled)
        | inl on ↦ ground (
          arith,
          r.lists,
          r.offers,
          settled,
          to_delete-nil old (offered_names T y T.catalogue) (i.no_other on),
        )
      ]

  -- In a state in which the two lists answer, and the look-up of each class that is there, a run
  -- reports no error and changes nothing exactly if each disk offering of customized size has a
  -- storage class that is compatible with it and has the labels, and, where deletion is on, no other
  -- class has the labels.
  pub run_fixed_iff :
      (s : K.State) → IsReadable T y.labels_set s → (run K y s ≡ ([], s)) ↔ IsSynced s
  run_fixed_iff s r = (λ h. (run-IsSynced s s h).0, run_synced s r)

  -- If a run reports no error, a second one in whose state the reads answer reports none either, and
  -- changes nothing.
  pub run_twice :
      (s t : K.State) → IsReadable T y.labels_set t → run K y s ≡ ([], t) → run K y t ≡ ([], t)
  run_twice s t r h = run_synced t r (run-IsSynced s t h).0
