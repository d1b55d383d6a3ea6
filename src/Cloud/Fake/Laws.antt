-- ===== src/Cloud/Fake/Laws.antt =====
-- The two maps of volumes of the fake connector.
use cloudstack_csi_driver.Prelude.{
  String, none, some, ◌≡◌, ◌≢◌, arith, Option-cases, Bool-cases, inl, inr,
}
use cloudstack_csi_driver.Prelude.Int.{ℤ}
use cloudstack_csi_driver.Prelude.Maps.{lookup, lookup-insert, lookup-erase}
use cloudstack_csi_driver.Prelude.Prog.{ok, err, final}
use cloudstack_csi_driver.Util.Gb.{giga_bytes_to_bytes}
use cloudstack_csi_driver.Cloud.{Volume, not_found}
use cloudstack_csi_driver.Cloud.Fake.{
  FakeConnector, Supply, made_volume, create_volume, delete_volume, expand_volume, get_volume_by_id,
  get_volume_by_name, insert, mul64, ltb_ℤ,
}

-- Every volume that a name leads to has that name, and its identifier leads to the same volume.
pub record Agrees (s : FakeConnector) : Type 0 where
  pub same_name :
      (name : String) (v : Volume) → lookup name s.volumes_by_name ≡ some v → v.name ≡ name
  pub same_volume :
      (name : String) (v : Volume)
      → lookup name s.volumes_by_name ≡ some v
      → lookup v.id s.volumes_by_id ≡ some v
  pub same_id : (id : String) (v : Volume) → lookup id s.volumes_by_id ≡ some v → v.id ≡ id

delete_known :
    (id : String) (s : FakeConnector)
    → Agrees s
    → (w : Volume) → lookup id s.volumes_by_id ≡ some w
    → Agrees (final (delete_volume id s))
unfolding delete_volume
delete_known id s a w e = rw e (record {
  same_name =
      λ name v h. ground (arith, a.same_name name v, lookup-erase name w.name s.volumes_by_name);
  same_volume = λ name v h. ground (
    arith,
    a.same_name name v,
    a.same_volume name v,
    a.same_id id w,
    lookup-erase name w.name s.volumes_by_name,
    lookup-erase v.id id s.volumes_by_id,
  );
  same_id = λ i v h. ground (arith, a.same_id i v, lookup-erase i id s.volumes_by_id);
})

delete_unknown :
    (id : String) (s : FakeConnector)
    → Agrees s
    → lookup id s.volumes_by_id ≡ none
    → Agrees (final (delete_volume id s))
unfolding delete_volume
delete_unknown id s a e = rw e (record {
  same_name = a.same_name;
  same_volume =
      λ name v h. ground (arith, a.same_volume name v, lookup-erase v.id id s.volumes_by_id);
  same_id = λ i v h. ground (arith, a.same_id i v, lookup-erase i id s.volumes_by_id);
})

-- If the map by name leads only to volumes of that name that the map by identifier has, and the map
-- by identifier to volumes of that identifier, then so it is after the deletion of any identifier.
pub delete_volume-Agrees :
    (id : String) (s : FakeConnector) → Agrees s → Agrees (final (delete_volume id s))
delete_volume-Agrees id s a = elim (Option-cases (lookup id s.volumes_by_id)) [
  | inl e ↦ delete_unknown id s a e
  | inr (w, e) ↦ delete_known id s a w e
]

-- A volume of the map that is put back with another size.
replace-Agrees :
    (id : String) (size : ℤ) (s : FakeConnector)
    → Agrees s
    → (w : Volume) → lookup id s.volumes_by_id ≡ some w
    → Agrees (record s {
      volumes_by_id = insert id (record w { size = size }) s.volumes_by_id;
      volumes_by_name = insert w.name (record w { size = size }) s.volumes_by_name;
    })
replace-Agrees id size s a w e =
    let w' = record w { size = size } in
    record {
      same_name =
          λ n v h. ground (arith, a.same_name n v, lookup-insert n w.name w' s.volumes_by_name);
      same_volume = λ n v h. ground (
        arith,
        a.same_name n v,
        a.same_volume n v,
        a.same_id id w,
        lookup-insert n w.name w' s.volumes_by_name,
        lookup-insert v.id id w' s.volumes_by_id,
      );
      same_id = λ i v h.
          ground (arith, a.same_id i v, a.same_id id w, lookup-insert i id w' s.volumes_by_id);
    }

-- If the map by name leads only to volumes of that name that the map by identifier has, and the map
-- by identifier to volumes of that identifier, then so it is after an expansion of any volume to
-- any size.
pub expand_volume-Agrees :
    (id : String) (size : ℤ) (s : FakeConnector)
    → Agrees s
    → Agrees (final (expand_volume id size s))
unfolding expand_volume
expand_volume-Agrees id size s a =
    let bytes = mul64 (mul64 (mul64 size 1024) 1024) 1024 in
    elim (Option-cases (lookup id s.volumes_by_id)) [
      | inl e ↦ rw e a
      | inr (w, e) ↦ rw e (elim (Bool-cases (ltb_ℤ w.size bytes)) [
        | inl larger ↦ rw larger (replace-Agrees id bytes s a w e)
        | inr same ↦ rw same a
      ])
    ]

-- The volume that `create_volume` makes.
abbrev pub created : Supply → String → String → String → ℤ → FakeConnector → Volume
created U offering zone name size s =
    made_volume (U.uuid s.drawn) name (giga_bytes_to_bytes size) offering zone

-- If the map by name leads only to volumes of that name that the map by identifier has, and the map
-- by identifier to volumes of that identifier, and no volume has the identifier that is drawn next,
-- then so it is after the creation of a volume of any name.
pub create_volume-Agrees :
    (U : Supply) (offering zone name : String) (size : ℤ) (s : FakeConnector)
    → Agrees s
    → lookup (U.uuid s.drawn) s.volumes_by_id ≡ none
    → Agrees (final (create_volume U offering zone name size s))
unfolding create_volume
create_volume-Agrees U offering zone name size s a fresh =
    let w = created U offering zone name size s in
    record {
      same_name =
          λ n v h. ground (arith, a.same_name n v, lookup-insert n name w s.volumes_by_name);
      same_volume = λ n v h. ground (
        arith,
        a.same_volume n v,
        lookup-insert n name w s.volumes_by_name,
        lookup-insert v.id w.id w s.volumes_by_id,
      );
      same_id = λ i v h. ground (arith, a.same_id i v, lookup-insert i w.id w s.volumes_by_id);
    }

-- After the creation of a volume whose name and whose identifier are not empty, it is found by its
-- name and by its identifier.
pub create_volume-get :
    (U : Supply) (offering zone name : String) (size : ℤ) (s : FakeConnector)
    → name ≢ ""
    → U.uuid s.drawn ≢ ""
    → (get_volume_by_name name (final (create_volume U offering zone name size s))
        ≡ ok
            (created U offering zone name size s)
            (final (create_volume U offering zone name size s)))
      × (get_volume_by_id (U.uuid s.drawn) (final (create_volume U offering zone name size s))
          ≡ ok
              (created U offering zone name size s)
              (final (create_volume U offering zone name size s)))
unfolding create_volume get_volume_by_name get_volume_by_id
create_volume-get U offering zone name size s p q =
    let w = created U offering zone name size s in
    (
      rw (lookup-insert name name w s.volumes_by_name) (ground arith),
      rw (lookup-insert w.id w.id w s.volumes_by_id) (ground arith),
    )

-- After the deletion of an identifier that is not empty no volume is found by it.
pub delete_volume-get :
    (id : String) (s : FakeConnector)
    → id ≢ ""
    → get_volume_by_id id (final (delete_volume id s)) ≡ err not_found (final (delete_volume id s))
unfolding delete_volume get_volume_by_id
delete_volume-get id s p = rw (lookup-erase id id s.volumes_by_id) (ground arith)
