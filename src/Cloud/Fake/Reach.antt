-- ===== src/Cloud/Fake/Reach.antt =====
-- The states that the operations of the fake connector lead to.
use cloudstack_csi_driver.Prelude.{String, List, [], ◌∷◌}
use cloudstack_csi_driver.Prelude.Int.{ℤ}
use cloudstack_csi_driver.Prelude.Prog.{final}
use cloudstack_csi_driver.Cloud.Fake.{
  FakeConnector, Supply, create_volume, delete_volume, expand_volume, create_volume_from_snapshot,
  create_snapshot, delete_snapshot, new,
}
use cloudstack_csi_driver.Cloud.Fake.Laws.{Agrees}
use cloudstack_csi_driver.Cloud.Fake.Reachable.{
  IsSupply, IsReachable, create-IsReachable, copy-IsReachable, delete-IsReachable,
  expand-IsReachable, snapshot-IsReachable, drop-IsReachable, new-IsReachable,
}

-- The operations that may change the state, with their arguments.
pub data Operation : Type 0 where
  create : String → String → String → ℤ → Operation
  copy : String → String → String → String → ℤ → Operation
  delete : String → Operation
  expand : String → ℤ → Operation
  snapshot : String → String → Operation
  drop : String → Operation

abbrev pub apply : Supply → Operation → FakeConnector → FakeConnector
apply U (create offering zone name size) s = final (create_volume U offering zone name size s)
apply U (copy zone name project snap size) s =
    final (create_volume_from_snapshot zone name project snap size s)
apply U (delete id) s = final (delete_volume id s)
apply U (expand id size) s = final (expand_volume id size s)
apply U (snapshot volume_id name) s = final (create_snapshot U volume_id name s)
apply U (drop id) s = final (delete_snapshot id s)

abbrev pub apply_all : Supply → List Operation → FakeConnector → FakeConnector
apply_all U [] s = s
apply_all U (o ∷ os) s = apply_all U os (apply U o s)

module _ {U : Supply} (u : IsSupply U) where
  apply-IsReachable :
      (o : Operation) (s : FakeConnector) → IsReachable U s → IsReachable U (apply U o s)
  apply-IsReachable (create offering zone name size) s r =
      create-IsReachable u offering zone name size s r
  apply-IsReachable (copy zone name project snap size) s r =
      copy-IsReachable u zone name project snap size s r
  apply-IsReachable (delete id) s r = delete-IsReachable u id s r
  apply-IsReachable (expand id size) s r = expand-IsReachable u id size s r
  apply-IsReachable (snapshot volume_id name) s r = snapshot-IsReachable u volume_id name s r
  apply-IsReachable (drop id) s r = drop-IsReachable u id s r

  apply_all-IsReachable :
      (os : List Operation) (s : FakeConnector) → IsReachable U s → IsReachable U (apply_all U os s)
  apply_all-IsReachable [] s r = r
  apply_all-IsReachable (o ∷ os) s r =
      apply_all-IsReachable os (apply U o s) (apply-IsReachable o s r)

-- After any operations on a new connector, in any order, the map by name leads only to volumes of that
-- name that the map by identifier has, and the map by identifier to volumes of that identifier, where
-- the identifiers that are drawn differ from one another and from those of the program.
pub apply_all-Agrees : (U : Supply) (os : List Operation) → IsSupply U → Agrees (apply_all U os new)
apply_all-Agrees U os u = (apply_all-IsReachable u os new (new-IsReachable u)).agrees
