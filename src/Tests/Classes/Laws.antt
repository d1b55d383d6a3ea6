-- ===== src/Tests/Classes/Laws.antt =====
-- The cluster of Tests/Classes.antt as a store with optimistic concurrency.
use cloudstack_csi_driver.Prelude.{
  String, Bool, true, false, none, some, [], ◌∷◌, ◌≡◌, ◌≢◌, ◌=?◌, refl, arith, if◌then◌else◌,
  Option-cases, Bool-cases, ◌⊎◌, List, string_dec, inl, inr, false,
}
use cloudstack_csi_driver.Prelude.Maps.{Map, lookup, insert, lookup-insert, lookup-erase}
use cloudstack_csi_driver.Prelude.Prog.{ok, err}
use cloudstack_csi_driver.Syncer.Classes.{StorageClass}
use cloudstack_csi_driver.Syncer.Run.Store.{Store, IsReadable}
use cloudstack_csi_driver.Syncer.Run.Stale.{IsOptimistic}
use cloudstack_csi_driver.Syncer.Run.{DiskOffering}
use cloudstack_csi_driver.Tests.Syncer.{offering}
use cloudstack_csi_driver.Tests.Classes.{
  Shelf, shelf, class_at, version, next, selected, selects, merge, get, create, update, delete,
}
use cloudstack_csi_driver.Tests.Classes.Listing.{selected_iff}

pub offered :
    (s t : Shelf) (os : List DiskOffering)
    → shelf.list_offerings s ≡ ok os t
    → (os ≡ offering ∷ []) × (t ≡ s)
offered s t os h = (ground arith, ground arith)

pub listed :
    (labels : Map String) (s t : Shelf) (scs : List StorageClass)
    → shelf.list_classes labels s ≡ ok scs t
    → (scs ≡ selected labels s) × (t ≡ s)
listed labels s t scs h = (ground arith, ground arith)

one-set : ("1" =? "") ≡ false
unfolding string_dec
one-set = refl

two-differs : ("2" =? "1") ≡ false
unfolding string_dec
two-differs = refl

pub created :
    (sc : StorageClass) (s t : Shelf) (n : String)
    → create sc s ≡ ok tt t
    → class_at t n
      ≡ (if n =? sc.name then some (record sc { resource_version = version t n }) else class_at s n)
created sc s t n h =
    let sc' = record sc { resource_version = "1" } in
    elim (Option-cases (class_at s sc.name)) [
      | inr (old, there) ↦ absurd (ground arith)
      | inl gone ↦ elim (Bool-cases (n =? sc.name)) [
        | inl same ↦ ground (arith, lookup-insert n sc.name sc' s, one-set)
        | inr other ↦ ground (arith, lookup-insert n sc.name sc' s)
      ]
    ]

next-set : (v : String) → (next v =? "") ≡ false
unfolding string_dec
next-set v = elim (Bool-cases (v =? "1")) [ inl e ↦ rw e refl | inr e ↦ rw e refl ]

updated :
    (sc : StorageClass) (s t : Shelf)
    → update sc s ≡ ok tt t
    → (old : StorageClass) × (class_at s sc.name ≡ some old)
      × (t ≡ insert sc.name (record sc { resource_version = next old.resource_version }) s)
      × ((sc.resource_version ≡ "") ⊎ (sc.resource_version ≡ old.resource_version))
updated sc s t h = elim (Option-cases (class_at s sc.name)) [
  | inl gone ↦ absurd (ground arith)
  | inr (old, there) ↦ elim (Bool-cases (sc.resource_version =? "")) [
    | inl empty ↦ (old, there, ground arith, inl (ground arith))
    | inr set ↦ elim (Bool-cases (sc.resource_version =? old.resource_version)) [
      | inl same ↦ (old, there, ground arith, inr (ground arith))
      | inr other ↦ absurd (ground arith)
    ]
  ]
]

pub replaced :
    (sc : StorageClass) (s t : Shelf) (n : String)
    → update sc s ≡ ok tt t
    → class_at t n
      ≡ (if n =? sc.name then some (record sc { resource_version = version t n }) else class_at s n)
replaced sc s t n h =
    let (old, there, after, _) = updated sc s t h in
    let sc' = record sc { resource_version = next old.resource_version } in
    elim (Bool-cases (n =? sc.name)) [
      | inl same ↦
          ground (arith, after, lookup-insert n sc.name sc' s, next-set old.resource_version)
      | inr other ↦ ground (arith, after, lookup-insert n sc.name sc' s)
    ]

pub deleted :
    (m : String) (s t : Shelf) (n : String)
    → delete m s ≡ ok tt t
    → class_at t n ≡ (if n =? m then none else class_at s n)
deleted m s t n h = elim (Option-cases (class_at s m)) [
  | inl gone ↦ absurd (ground arith)
  | inr (old, there) ↦ ground (arith, lookup-erase n m s)
]

pub got :
    (n : String) (s t : Shelf) (sc : StorageClass)
    → get n s ≡ ok sc t
    → (class_at s n ≡ some sc) × (t ≡ s)
got n s t sc h = elim (Option-cases (class_at s n)) [
  | inl gone ↦ absurd (ground arith)
  | inr (old, there) ↦ (ground arith, ground arith)
]

pub missed :
    (n : String) (s t : Shelf) (e : Bool)
    → get n s ≡ err e t
    → e ≡ true
    → (class_at s n ≡ none) × (t ≡ s)
missed n s t e h _ = elim (Option-cases (class_at s n)) [
  | inl gone ↦ (gone, ground arith)
  | inr (old, there) ↦ absurd (ground arith)
]

pub gets : (n : String) (s : Shelf) (sc : StorageClass) → class_at s n ≡ some sc → get n s ≡ ok sc s
gets n s sc h = rw h

pub named : (n : String) (s : Shelf) (sc : StorageClass) → class_at s n ≡ some sc → sc.name ≡ n
named n s sc h = elim (Option-cases (lookup n s)) [
  | inl gone ↦ absurd (ground arith)
  | inr (old, there) ↦ ground arith
]

pub unnamed : (s : Shelf) → class_at s "" ≡ none
unnamed s = elim (Option-cases (lookup "" s)) [
  | inl gone ↦ ground arith
  | inr (old, there) ↦ ground arith
]

pub own : (labels : Map String) → selects labels labels ≡ true
unfolding lookup
own [] = refl
own ((k, v) ∷ labels) = ground arith

pub merged : (old labels : Map String) → selects labels (merge old labels) ≡ true
unfolding lookup
merged old [] = refl
merged old ((k, v) ∷ labels) = ground arith

abbrev pub shelf-Store : Store shelf
shelf-Store = record {
  classes = class_at;
  version = version;
  catalogue = offering ∷ [];
  listing = selected;
  offered = offered;
  listed = listed;
  got = got;
  missed = missed;
  created = created;
  replaced = replaced;
  deleted = deleted;
  named = named;
  unnamed = unnamed;
  listed_iff = selected_iff;
  own = own;
  merged = merged;
}

pub shelf-IsReadable : (labels : Map String) (s : Shelf) → IsReadable shelf-Store labels s
shelf-IsReadable labels s = record {
  offers = refl;
  lists = refl;
  gets = λ n sc there. gets n s sc there;
}

versioned :
    (n : String) (s : Shelf) (sc : StorageClass) → class_at s n ≡ some sc → sc.resource_version ≢ ""
versioned n s sc h e = elim (Option-cases (lookup n s)) [
  | inl gone ↦ absurd (ground arith)
  | inr (old, there) ↦ absurd (ground arith)
]

current :
    (sc old : StorageClass) (s t : Shelf)
    → class_at s sc.name ≡ some old
    → update sc s ≡ ok tt t
    → (sc.resource_version ≡ "") ⊎ (sc.resource_version ≡ old.resource_version)
current sc old s t there h =
    let (old', there', after, fresh) = updated sc s t h in
    elim fresh [ inl empty ↦ inl empty | inr same ↦ inr (ground arith) ]

next-differs : (v : String) → next v ≢ v
next-differs v h = elim (Bool-cases (v =? "1")) [
  | inl e ↦ absurd (ground (arith, two-differs))
  | inr e ↦ absurd (ground arith)
]

renewed :
    (sc old : StorageClass) (s t : Shelf)
    → class_at s sc.name ≡ some old
    → update sc s ≡ ok tt t
    → sc.allow_volume_expansion ≢ old.allow_volume_expansion
    → version t sc.name ≢ old.resource_version
renewed sc old s t there h _ same =
    let (old', there', after, fresh) = updated sc s t h in
    next-differs old.resource_version (
      ground (
        arith,
        replaced sc s t sc.name h,
        after,
        lookup-insert sc.name sc.name (record sc { resource_version = next old'.resource_version })
            s,
      ))

pub shelf-IsOptimistic : IsOptimistic shelf-Store
shelf-IsOptimistic = record { versioned = versioned; current = current; renewed = renewed }
