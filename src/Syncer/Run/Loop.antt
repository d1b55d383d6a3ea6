-- ===== src/Syncer/Run/Loop.antt =====
-- The two loops of `Run` of pkg/syncer/run.go on a store of storage classes.
use cloudstack_csi_driver.Prelude.{
  String, true, false, none, List, [], ◌∷◌, ◌≡◌, inl, inr, refl, arith, Bool-cases, Option-cases,
  if◌then◌else◌, subst,
}
use cloudstack_csi_driver.Prelude.Prog.{Outcome-cases}
use cloudstack_csi_driver.Syncer.Classes.{found}
use cloudstack_csi_driver.Syncer.Run.{
  Cluster, Syncer, DiskOffering, sync_offering, sync_all, delete_all, name_of, add_name,
}
use cloudstack_csi_driver.Syncer.Run.Store.{Store, IsReadable}
use cloudstack_csi_driver.Syncer.Run.Settles.{Holds, sync_settled, sync-Holds}
use cloudstack_csi_driver.Syncer.Run.Frame.{sync_other, sync_same}

module _ {K : Cluster} (T : Store K) (y : Syncer) where
  -- The names of the classes that the offerings should have.
  abbrev pub offered_names : List DiskOffering → List String
  offered_names [] = []
  offered_names (o ∷ os) =
      let rest = offered_names os in if o.is_customized then name_of K y o ∷ rest else rest

  -- Each offering of customized size has its class.
  abbrev pub AllHold : List DiskOffering → K.State → Type 0
  AllHold [] s = Unit
  AllHold (o ∷ os) s = (o.is_customized ≡ true → Holds T y o s) × AllHold os s

  -- A loop without an error, taken apart after the first offering.
  sync_all_step :
      (o : DiskOffering) (os : List DiskOffering) (s t : K.State) (names : List String)
      → sync_all K y (o ∷ os) s ≡ ((names, []), t)
      → (name : String) × (u : K.State) × (rest : List String) × (sync_offering K y o s
          ≡ ((name, none), u))
        × (sync_all K y os u ≡ ((rest, []), t))
        × (names ≡ add_name K name rest)
  unfolding sync_all
  sync_all_step o os s t names h =
      let r = sync_offering K y o s in
      let q = sync_all K y os r.1 in
      elim (Option-cases r.0.1) [
        | inr (e, f) ↦ absurd (ground arith)
        | inl f ↦ (r.0.0, r.1, q.0.0, ground arith, ground arith, ground arith)
      ]

  pub sync-names :
      (o : DiskOffering) (s t : K.State) (name : String) (rest : List String)
      → sync_offering K y o s ≡ ((name, none), t)
      → add_name K name rest ≡ (if o.is_customized then name_of K y o ∷ rest else rest)
  unfolding sync_offering
  sync-names o s t name rest h = elim (Bool-cases o.is_customized) [
    | inr fixed ↦ ground arith
    | inl custom ↦
        let (same, there) = sync-Holds T y o s t name custom h in
        ground (arith, same, T.unnamed t, there.held)
  ]

  pub sync_all-names :
      (os : List DiskOffering) (s t : K.State) (names : List String)
      → sync_all K y os s ≡ ((names, []), t)
      → names ≡ offered_names os
  unfolding sync_all
  sync_all-names [] s t names h = ground arith
  sync_all-names (o ∷ os) s t names h =
      let (name, u, rest, head, tail, e) = sync_all_step o os s t names h in
      ground (arith, e, sync-names o s u name rest head, sync_all-names os u t rest tail)

  sync_all_same :
      (os : List DiskOffering) (p : DiskOffering) (s t : K.State) (names : List String)
      → sync_all K y os s ≡ ((names, []), t)
      → Holds T y p s
      → Holds T y p t
  unfolding sync_all
  sync_all_same [] p s t names h holds = subst (Holds T y p) (ground arith) holds
  sync_all_same (o ∷ os) p s t names h holds =
      let (name, u, rest, head, tail, e) = sync_all_step o os s t names h in
      sync_all_same os p u t rest tail (sync_same T y o p s u name head holds)

  pub sync_all-AllHold :
      (os : List DiskOffering) (s t : K.State) (names : List String)
      → sync_all K y os s ≡ ((names, []), t)
      → AllHold os t
  sync_all-AllHold [] s t names h = tt
  sync_all-AllHold (o ∷ os) s t names h =
      let (name, u, rest, head, tail, e) = sync_all_step o os s t names h in
      (
        λ custom. sync_all_same os o u t rest tail (sync-Holds T y o s u name custom head).1,
        sync_all-AllHold os u t rest tail,
      )

  -- An offering of fixed size is passed over.
  pub sync_skips :
      (o : DiskOffering) (s : K.State)
      → o.is_customized ≡ false
      → sync_offering K y o s ≡ (("", none), s)
  unfolding sync_offering
  sync_skips o s fixed = ground arith

  pub sync_all_other :
      (os : List DiskOffering) (s t : K.State) (names : List String) (n : String)
      → sync_all K y os s ≡ ((names, []), t)
      → found n (offered_names os) ≡ false
      → T.classes t n ≡ T.classes s n
  unfolding sync_all
  sync_all_other [] s t names n h absent = ground arith
  sync_all_other (o ∷ os) s t names n h absent =
      let (name, u, rest, head, tail, e) = sync_all_step o os s t names h in
      elim (Bool-cases o.is_customized) [
        | inr fixed ↦
            ground (arith, sync_skips o s fixed, sync_all_other os u t rest n tail (ground arith))
        | inl custom ↦ ground (
          arith,
          sync_other T y o s u name n (ground arith) head,
          sync_all_other os u t rest n tail (ground arith),
        )
      ]

  pub sync_all_settled :
      (os : List DiskOffering) (s : K.State)
      → IsReadable T y.labels_set s
      → AllHold os s
      → sync_all K y os s ≡ ((offered_names os, []), s)
  unfolding sync_all
  sync_all_settled [] s r h = refl
  sync_all_settled (o ∷ os) s r h = elim (Bool-cases o.is_customized) [
    | inr fixed ↦ ground (arith, sync_skips o s fixed, sync_all_settled os s r h.1)
    | inl custom ↦
        let held = h.0 custom in
        let settled = sync_settled T y o s custom held (r.gets (name_of K y o) held.sc held.held) in
        ground (
          arith,
          settled,
          sync-names o s s (name_of K y o) (offered_names os) settled,
          sync_all_settled os s r h.1,
        )
  ]

  pub delete_all-classes :
      (names : List String) (s t : K.State) (n : String)
      → delete_all K names s ≡ ([], t)
      → T.classes t n ≡ (if found n names then none else T.classes s n)
  unfolding delete_all
  delete_all-classes [] s t n h = ground arith
  delete_all-classes (m ∷ names) s t n h = elim (Outcome-cases (K.delete_class m s)) [
    | inr (e, u, f) ↦ absurd (ground arith)
    | inl (_, u, f) ↦
        ground (arith, T.deleted m s u n f, delete_all-classes names u t n (ground arith))
  ]
