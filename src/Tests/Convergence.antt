-- ===== src/Tests/Convergence.antt =====
-- Runs of the theorems on the synchronisation as a whole.
use cloudstack_csi_driver.Prelude.{
  String, true, false, [], ◌∷◌, ◌≡◌, ◌≢◌, ◌↔◌, refl, string_dec, Bool-cases, some, none,
}
use cloudstack_csi_driver.Prelude.Maps.{lookup, insert, erase}
use cloudstack_csi_driver.Prelude.Strconv.{text_of}
use cloudstack_csi_driver.Syncer.Names.{create_storage_class_name}
use cloudstack_csi_driver.Syncer.Classes.{
  StorageClass, new_storage_class, found, check_storage_class, to_delete, is_expansion,
}
use cloudstack_csi_driver.Syncer.Run.{
  run, names_of, reconcile, sync_all, sync_offering, sync_existing, sync_checked, sync_labels,
  delete_all, name_of,
}
use cloudstack_csi_driver.Syncer.Run.Loop.{offered_names}
use cloudstack_csi_driver.Syncer.Run.Converges.{IsSynced, run-IsSynced, run_fixed_iff}
use cloudstack_csi_driver.Syncer.Run.Stale.{two_updates_refused}
use cloudstack_csi_driver.Tests.Syncer.{syncer, offering}
use cloudstack_csi_driver.Tests.Classes.{Shelf, shelf, class_at, selected, selects}
use cloudstack_csi_driver.Tests.Classes.Laws.{shelf-Store, shelf-IsReadable, shelf-IsOptimistic}

-- A class, with a version.
abbrev kept : String → StorageClass → StorageClass
kept v sc = record sc { resource_version = v }

-- A class without the labels; and what it becomes.
abbrev stale : StorageClass
stale = kept "1" (new_storage_class "cloudstack-gold" [] "id-gold" true)

abbrev fresh : StorageClass
fresh = kept "2" (new_storage_class "cloudstack-gold" syncer.labels_set "id-gold" true)

-- A class of an offering that is gone, with the labels, and one that is none of the program's.
abbrev orphan : StorageClass
orphan = kept "1" (new_storage_class "cloudstack-old" syncer.labels_set "id-old" true)

abbrev foreign : StorageClass
foreign = kept "1" (new_storage_class "local" [] "" false)

abbrev before : Shelf
before = ("cloudstack-old", orphan) ∷ ("local", foreign) ∷ ("cloudstack-gold", stale) ∷ []

abbrev after : Shelf
after = ("local", foreign) ∷ ("cloudstack-gold", fresh) ∷ []

refreshes : run shelf syncer before ≡ ([], after)
unfolding run reconcile sync_all delete_all sync_offering sync_existing sync_checked sync_labels
    check_storage_class to_delete string_dec create_storage_class_name text_of new_storage_class
    lookup insert erase Bool-cases
refreshes = refl

run-IsSynced_example :
    IsSynced shelf-Store syncer after
    × ((n : String)
        → found n (offered_names shelf-Store syncer (offering ∷ [])) ≡ false
        → (syncer.delete ≡ true → found n (names_of (selected syncer.labels_set before)) ≡ false)
        → class_at after n ≡ class_at before n)
run-IsSynced_example = run-IsSynced shelf-Store syncer before after refreshes

run_fixed_iff_example : (run shelf syncer after ≡ ([], after)) ↔ IsSynced shelf-Store syncer after
run_fixed_iff_example =
    run_fixed_iff shelf-Store syncer after (shelf-IsReadable syncer.labels_set after)

-- The class of the offering without the labels, with another expansion.
abbrev fixed : StorageClass
fixed = record stale { allow_volume_expansion = some false }

there : class_at (("cloudstack-gold", fixed) ∷ []) (name_of shelf syncer offering) ≡ some fixed
unfolding create_storage_class_name text_of string_dec Bool-cases lookup new_storage_class
there = refl

differs_in_both :
    (is_expansion fixed.allow_volume_expansion true ≡ false)
    × (selects syncer.labels_set fixed.labels ≡ false)
unfolding lookup new_storage_class string_dec
differs_in_both = (refl, refl)

two_updates_refused_example :
    sync_offering shelf syncer offering (("cloudstack-gold", fixed) ∷ [])
    ≢ (("cloudstack-gold", none), after)
two_updates_refused_example =
    two_updates_refused shelf-Store syncer shelf-IsOptimistic offering fixed
      (("cloudstack-gold", fixed) ∷ []) after "cloudstack-gold" refl there differs_in_both.0
      differs_in_both.1
