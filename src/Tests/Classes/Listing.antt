-- ===== src/Tests/Classes/Listing.antt =====
-- The classes that the cluster of Tests/Classes.antt lists.
use cloudstack_csi_driver.Prelude.{
  String, Bool, true, false, not, ◌&&◌, Option, none, some, List, [], ◌∷◌, ◌≡◌, ◌↔◌, ◌=?◌, refl,
  arith, if◌then◌else◌, Option-cases, Bool-cases, inl, inr, ◌||◌, ◌∙◌, ap, subst, sym,
}
use cloudstack_csi_driver.Prelude.Maps.{Map, lookup}
use cloudstack_csi_driver.Syncer.Classes.{StorageClass, found}
use cloudstack_csi_driver.Syncer.Run.{names_of}
use cloudstack_csi_driver.Tests.Classes.{
  Shelf, class_at, selected, selects, valid, valid_at, filter_out,
}

found-filter_out :
    (n k : String) (scs : List StorageClass)
    → found n (names_of (filter_out k scs)) ≡ (found n (names_of scs) && not (n =? k))
found-filter_out n k [] = refl
found-filter_out n k (sc ∷ scs) = ground (arith, found-filter_out n k scs)

abbrev selects_at : Map String → Option StorageClass → Bool
selects_at labels none = false
selects_at labels (some sc) = selects labels sc.labels

found-if :
    (b : Bool) (n : String) (sc : StorageClass) (scs : List StorageClass)
    → found n (names_of (if b then sc ∷ scs else scs))
      ≡ (b && (sc.name =? n) || found n (names_of scs))
found-if true n sc scs = ground arith
found-if false n sc scs = refl

-- At the key of the first entry, and at another one.
first-selected :
    (labels : Map String) (k : String) (sc : StorageClass) (r : Bool)
    → ((valid k sc && selects labels sc.labels) && (sc.name =? k) || r && not (k =? k))
      ≡ selects_at labels (valid_at k (some sc))
first-selected labels k sc r = elim (Bool-cases (valid k sc)) [
  | inl v ↦ elim (Bool-cases (selects labels sc.labels)) [
    | inl m ↦ ground arith
    | inr m ↦ ground arith
  ]
  | inr v ↦ ground arith
]

rest-selected :
    (labels : Map String) (k n : String) (sc : StorageClass) (r : Bool)
    → (n =? k) ≡ false
    → ((valid k sc && selects labels sc.labels) && (sc.name =? n) || r && not (n =? k)) ≡ r
rest-selected labels k n sc r other = elim (Bool-cases (valid k sc)) [
  | inl v ↦ elim (Bool-cases r) [ inl e ↦ ground arith | inr e ↦ ground arith ]
  | inr v ↦ elim (Bool-cases r) [ inl e ↦ ground arith | inr e ↦ ground arith ]
]

class_at-first :
    (k : String) (sc : StorageClass) (s : Shelf) → class_at ((k, sc) ∷ s) k ≡ valid_at k (some sc)
unfolding lookup
class_at-first k sc s = ap (valid_at k) {y = some sc} (ground arith)

class_at-rest :
    (k n : String) (sc : StorageClass) (s : Shelf)
    → (n =? k) ≡ false
    → class_at ((k, sc) ∷ s) n ≡ class_at s n
unfolding lookup
class_at-rest k n sc s other = ap (valid_at n) (ground arith)

found-cons :
    (labels : Map String) (k n : String) (sc : StorageClass) (s : Shelf)
    → found n (names_of (selected labels ((k, sc) ∷ s))) ≡ (
        (valid k sc && selects labels sc.labels) && (sc.name =? n)
        || found n (names_of (selected labels s)) && not (n =? k))
found-cons labels k n sc s =
    found-if (valid k sc && selects labels sc.labels) n sc (filter_out k (selected labels s))
    ∙ ap (λ b. (valid k sc && selects labels sc.labels) && (sc.name =? n) || b)
        (found-filter_out n k (selected labels s))

abbrev Lists : Map String → Shelf → String → Type 0
Lists labels s n = found n (names_of (selected labels s)) ≡ selects_at labels (class_at s n)

Lists-first :
    (labels : Map String) (k : String) (sc : StorageClass) (s : Shelf)
    → Lists labels ((k, sc) ∷ s) k
Lists-first labels k sc s =
    found-cons labels k k sc s
    ∙ (first-selected labels k sc (found k (names_of (selected labels s)))
        ∙ ap (selects_at labels) (sym (class_at-first k sc s)))

Lists-rest :
    (labels : Map String) (k n : String) (sc : StorageClass) (s : Shelf)
    → (n =? k) ≡ false
    → Lists labels s n
    → Lists labels ((k, sc) ∷ s) n
Lists-rest labels k n sc s other h =
    found-cons labels k n sc s
    ∙ (rest-selected labels k n sc (found n (names_of (selected labels s))) other
        ∙ (h ∙ ap (selects_at labels) (sym (class_at-rest k n sc s other))))

found-selected : (labels : Map String) (s : Shelf) (n : String) → Lists labels s n
unfolding lookup
found-selected labels [] n = refl
found-selected labels ((k, sc) ∷ s) n =
    let rest = found-selected labels s n in
    elim (Bool-cases (n =? k)) [
      | inl same ↦ subst (Lists labels ((k, sc) ∷ s)) (ground arith) (Lists-first labels k sc s)
      | inr other ↦ Lists-rest labels k n sc s other rest
    ]

pub selected_iff :
    (labels : Map String) (s : Shelf) (n : String)
    → (found n (names_of (selected labels s)) ≡ true)
      ↔ ((sc : StorageClass) × (class_at s n ≡ some sc) × (selects labels sc.labels ≡ true))
selected_iff labels s n = elim (Option-cases (class_at s n)) [
  | inl gone ↦ (
    λ h. absurd (ground (arith, found-selected labels s n)),
    λ (sc, there, m). absurd (ground arith),
  )
  | inr (sc, there) ↦ (
    λ h. (sc, there, ground (arith, found-selected labels s n)),
    λ (sc', there', m). ground (arith, found-selected labels s n),
  )
]
