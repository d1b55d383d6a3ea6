-- ===== src/Tests/Syncer.antt =====
-- Runs of the theorems on the syncer.
use cloudstack_csi_driver.Prelude.{
  String, true, Option, none, some, List, [], ◌∷◌, ◌≡◌, refl, codes, ℕ, false,
}
use cloudstack_csi_driver.Prelude.Prog.{Prog, ok, err}
use cloudstack_csi_driver.Syncer.Names.{create_storage_class_name}
use cloudstack_csi_driver.Syncer.Names.Laws.{IsName, create_storage_class_name-IsName}
use cloudstack_csi_driver.Syncer.Classes.{StorageClass, new_storage_class}
use cloudstack_csi_driver.Syncer.Run.{run, failed, Cluster, Syncer, DiskOffering}
use cloudstack_csi_driver.Syncer.Run.Deletion.{run_deletes}
use cloudstack_csi_driver.Syncer.Run.Laws.{class_of}

abbrev pub ascii : List ℕ → Option (List ℕ)
ascii cs = some cs

gold : create_storage_class_name ascii (codes "--- Gold NFS ---") ≡ some (codes "gold-nfs")
unfolding create_storage_class_name
gold = refl

create_storage_class_name-IsName_example : IsName (codes "gold-nfs")
create_storage_class_name-IsName_example =
    create_storage_class_name-IsName ascii (codes "--- Gold NFS ---") (codes "gold-nfs") gold

abbrev gold_class : StorageClass
gold_class = new_storage_class "gold" [] "id-gold" true

-- A cluster that keeps the class that was made last.
abbrev get : String → Prog (Unit {0}) (Option StorageClass) StorageClass
get name none = err tt none
get name (some sc) = ok sc (some sc)

abbrev cluster : Cluster
cluster = record {
  State = Option StorageClass;
  Error = Unit {0};
  is_not_found = λ e. true;
  list_classes = λ labels s. ok [] s;
  get_class = get;
  create_class = λ sc s. ok tt (some sc);
  update_class = λ sc s. ok tt (some sc);
  delete_class = λ name s. ok tt none;
  list_offerings = λ s. ok [] s;
  matches = λ labels existing. true;
  merge = λ existing labels. labels;
  normalize = ascii;
}

abbrev pub syncer : Syncer
syncer = record {
  labels_set = ("managed-by", "syncer") ∷ [];
  name_prefix = "cloudstack-";
  delete = true;
  volume_expansion = true;
}

abbrev pub offering : DiskOffering
offering = record { id = "id-gold"; name = "Gold"; is_customized = true }

-- A cluster that does not answer when it is asked for a class; its state is the deleted name.
abbrev deaf : Cluster
deaf = record cluster {
  State = String;
  is_not_found = λ e. false;
  list_classes = λ labels s. ok (class_of cluster syncer offering ∷ []) s;
  get_class = λ name s. err tt s;
  create_class = λ sc s. ok tt s;
  update_class = λ sc s. ok tt s;
  delete_class = λ name s. ok tt name;
  list_offerings = λ s. ok (offering ∷ []) s;
}

run_deletes_example : run deaf syncer "" ≡ (failed tt ∷ [], (class_of cluster syncer offering).name)
unfolding new_storage_class
run_deletes_example =
    run_deletes deaf syncer "" "" "" "" (class_of cluster syncer offering).name
      (class_of cluster syncer offering) offering tt refl refl refl refl refl refl refl refl
