-- ===== src/Tests/Classes.antt =====
-- A cluster that is a map of storage classes with versions, with a selector that looks at the first label.
mod Listing
pub mod Laws
use cloudstack_csi_driver.Prelude.{
  String, Bool, true, false, not, ◌&&◌, Option, none, some, List, [], ◌∷◌, ◌≡◌, ◌≢◌, ◌↔◌, ◌=?◌,
  refl, arith, if◌then◌else◌, Option-cases, Bool-cases, inl, inr, ◌||◌, ◌∙◌, ap, subst, sym,
}
use cloudstack_csi_driver.Prelude.Maps.{Map, lookup, insert, erase, lookup-insert, lookup-erase}
use cloudstack_csi_driver.Prelude.Prog.{Prog, ok, err}
use cloudstack_csi_driver.Syncer.Classes.{StorageClass, found}
use cloudstack_csi_driver.Syncer.Run.{Cluster, names_of}
use cloudstack_csi_driver.Tests.Syncer.{offering, ascii}

abbrev pub Shelf : Type 0
Shelf = Map StorageClass

-- An entry counts if its key is the name of its class, and not empty.
abbrev pub valid : String → StorageClass → Bool
valid k sc = (not (k =? "") && (sc.name =? k)) && not (sc.resource_version =? "")

abbrev pub valid_at : String → Option StorageClass → Option StorageClass
valid_at k none = none
valid_at k (some sc) = if valid k sc then some sc else none

abbrev pub class_at : Shelf → String → Option StorageClass
class_at s n = valid_at n (lookup n s)

-- The error tells whether the class is not found.
abbrev pub answered : Option StorageClass → Prog Bool Shelf StorageClass
answered none s = err true s
answered (some sc) s = ok sc s

abbrev pub get : String → Prog Bool Shelf StorageClass
get n s = answered (class_at s n) s

-- A class that is there is not made again.
abbrev pub made : StorageClass → Option StorageClass → Prog Bool Shelf (Unit {0})
made sc (some old) s = err false s
made sc none s =
    if sc.name =? ""
    then err false s
    else ok tt (insert sc.name (record sc { resource_version = "1" }) s)

abbrev pub create : StorageClass → Prog Bool Shelf (Unit {0})
create sc s = made sc (class_at s sc.name) s

-- There are two versions, which take turns.
abbrev pub next : String → String
next v = if v =? "1" then "2" else "1"

-- The state that a write leads to, where the class is there.
abbrev pub written : Option StorageClass → Shelf → Prog Bool Shelf (Unit {0})
written none s' s = err true s
written (some old) s' s = ok tt s'

-- An update with a version other than that of the class is a conflict.
abbrev pub replaced : StorageClass → Option StorageClass → Prog Bool Shelf (Unit {0})
replaced sc none s = err true s
replaced sc (some old) s =
    if (sc.resource_version =? "") || (sc.resource_version =? old.resource_version)
    then ok tt (insert sc.name (record sc { resource_version = next old.resource_version }) s)
    else err false s

abbrev pub update : StorageClass → Prog Bool Shelf (Unit {0})
update sc s = replaced sc (class_at s sc.name) s

abbrev pub delete : String → Prog Bool Shelf (Unit {0})
delete n s = written (class_at s n) (erase n s) s

abbrev pub is_value : String → Option String → Bool
is_value v none = false
is_value v (some w) = v =? w

abbrev pub selects : Map String → Map String → Bool
selects [] labels = true
selects ((k, v) ∷ rest) labels = is_value v (lookup k labels)

abbrev pub merge : Map String → Map String → Map String
merge old [] = old
merge old ((k, v) ∷ labels) = (k, v) ∷ old

abbrev pub filter_out : String → List StorageClass → List StorageClass
filter_out k [] = []
filter_out k (sc ∷ scs) = let rest = filter_out k scs in if sc.name =? k then rest else sc ∷ rest

abbrev pub selected : Map String → Shelf → List StorageClass
selected labels [] = []
selected labels ((k, sc) ∷ s) =
    let rest = filter_out k (selected labels s) in
    if valid k sc && selects labels sc.labels then sc ∷ rest else rest

abbrev pub version_of : Option StorageClass → String
version_of none = ""
version_of (some sc) = sc.resource_version

abbrev pub version : Shelf → String → String
version s n = version_of (class_at s n)

abbrev pub shelf : Cluster
shelf = record {
  State = Shelf;
  Error = Bool;
  is_not_found = λ e. e;
  list_classes = λ labels s. ok (selected labels s) s;
  get_class = get;
  create_class = create;
  update_class = update;
  delete_class = delete;
  list_offerings = λ s. ok (offering ∷ []) s;
  matches = selects;
  merge = merge;
  normalize = ascii;
}
