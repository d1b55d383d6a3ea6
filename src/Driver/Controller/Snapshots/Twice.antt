-- ===== src/Driver/Controller/Snapshots/Twice.antt =====
-- `CreateSnapshot` of pkg/driver/controller.go on the fake connector, called again.
use cloudstack_csi_driver.Prelude.{
  suc, String, true, false, some, List, [], ◌∷◌, ◌++◌, ◌≡◌, ◌≢◌, ◌=?◌, refl, arith, Bool-cases,
  Option-cases, inl, inr,
}
use cloudstack_csi_driver.Prelude.Maps.{lookup, insert, lookup-insert}
use cloudstack_csi_driver.Prelude.Prog.{ok}
use cloudstack_csi_driver.Util.VolumeLocks.{Sets}
use cloudstack_csi_driver.Cloud.{Volume, Snapshot}
use cloudstack_csi_driver.Cloud.Fake.{
  Supply, FakeConnector, fake_connector, is_conflict, named, made_snapshot,
}
use cloudstack_csi_driver.Cloud.Fake
use cloudstack_csi_driver.Cloud.Fake.Reachable.{IsSupply}
use cloudstack_csi_driver.Driver.Controller.{Server}
use cloudstack_csi_driver.Driver.Controller.Snapshots.{Times, SnapshotEntry, create_snapshot}

is_conflict-append :
    (id : String) (snaps : List Snapshot) (snap : Snapshot)
    → is_conflict id snaps ≡ false
    → snap.volume_id ≡ id
    → is_conflict id (snaps ++ (snap ∷ [])) ≡ false
is_conflict-append id [] snap h e = ground arith
is_conflict-append id (x ∷ snaps) snap h e = ground (arith, is_conflict-append id snaps snap)

module _ (L : Sets) (U : Supply) (T : Times) where
  -- The connector with a new snapshot of a volume.
  abbrev snapped : String → String → FakeConnector → FakeConnector
  snapped name id c =
      let snap = made_snapshot U (U.uuid c.drawn) id name in
      record c {
        snapshots_by_id = insert snap.id snap c.snapshots_by_id;
        snapshots_by_name =
            insert name (named (lookup name c.snapshots_by_name) ++ (snap ∷ []))
              c.snapshots_by_name;
        drawn = suc c.drawn;
      }

  -- What a call that succeeds has found, and what it did.
  record Snapped (name id : String) (s t : Server L (fake_connector U)) (e : SnapshotEntry T)
      : Type 0 where
    vol : Volume
    volume : lookup id s.cloud.volumes_by_id ≡ some vol
    no_conflict : is_conflict vol.id (named (lookup name s.cloud.snapshots_by_name)) ≡ false
    after : t.cloud ≡ snapped name vol.id s.cloud
    identifier : e.snapshot_id ≡ U.uuid s.cloud.drawn
    source : e.source_volume_id ≡ vol.id
    time : T.Time
    parsed : T.parse (made_snapshot U "" "" "").created_at ≡ some time
    passes : ((name =? "") ≡ false) × ((id =? "") ≡ false)

  create_snapshot-Snapped :
      (name id : String) (s t : Server L (fake_connector U)) (e : SnapshotEntry T)
      → create_snapshot L (fake_connector U) T name id s ≡ ok e t
      → Snapped name id s t e
  unfolding create_snapshot Fake.get_volume_by_id Fake.create_snapshot
  create_snapshot-Snapped name id s t e h = elim (Option-cases (lookup id s.cloud.volumes_by_id)) [
    | inl gone ↦ absurd (ground arith)
    | inr (vol, there) ↦
        elim (Bool-cases (is_conflict vol.id (named (lookup name s.cloud.snapshots_by_name)))) [
          | inl conflict ↦ absurd (ground arith)
          | inr free ↦ elim (Option-cases (T.parse (made_snapshot U "" "" "").created_at)) [
            | inl bad ↦ absurd (ground arith)
            | inr (time, parsed) ↦ record {
              vol = vol;
              volume = there;
              no_conflict = free;
              after = ground arith;
              identifier = ground arith;
              source = ground arith;
              time = time;
              parsed = parsed;
              passes = (ground arith, ground arith);
            }
          ]
        ]
  ]

  create_snapshot-run :
      (name id : String) (s : Server L (fake_connector U)) (vol : Volume) (time : T.Time)
      → ((name =? "") ≡ false) × ((id =? "") ≡ false)
      → lookup id s.cloud.volumes_by_id ≡ some vol
      → is_conflict vol.id (named (lookup name s.cloud.snapshots_by_name)) ≡ false
      → T.parse (made_snapshot U "" "" "").created_at ≡ some time
      → create_snapshot L (fake_connector U) T name id s
        ≡ ok
            (record {
              snapshot_id = U.uuid s.cloud.drawn;
              source_volume_id = vol.id;
              creation_time = time;
              ready_to_use = true;
            })
            (record s { cloud = snapped name vol.id s.cloud })
  unfolding create_snapshot Fake.get_volume_by_id Fake.create_snapshot
  create_snapshot-run name id s vol time passes there free parsed =
      let (has_name, has_id) = passes in ground arith

  -- If `CreateSnapshot` succeeds on the fake connector, whose drawn identifiers differ from one
  -- another, then so it does when it is called again with the same name and volume: it does not answer
  -- with the snapshot of that name, but makes another one of another identifier, and both are there.
  pub create_snapshot_twice :
      (name id : String) (s t : Server L (fake_connector U)) (e : SnapshotEntry T)
      → IsSupply U
      → create_snapshot L (fake_connector U) T name id s ≡ ok e t
      → (e' : SnapshotEntry T) × (t' : Server L (fake_connector U)) × (create_snapshot L
            (fake_connector U)
            T
            name
            id
            t
          ≡ ok e' t')
        × (e'.source_volume_id ≡ e.source_volume_id)
        × (e'.snapshot_id ≢ e.snapshot_id)
        × (lookup e.snapshot_id t'.cloud.snapshots_by_id
            ≡ some (made_snapshot U e.snapshot_id e.source_volume_id name))
        × (lookup e'.snapshot_id t'.cloud.snapshots_by_id
            ≡ some (made_snapshot U e'.snapshot_id e.source_volume_id name))
  create_snapshot_twice name id s t e u h =
      let m = create_snapshot-Snapped name id s t e h in
      let c = s.cloud in
      let snap = made_snapshot U (U.uuid c.drawn) m.vol.id name in
      let snap' = made_snapshot U (U.uuid (suc c.drawn)) m.vol.id name in
      let snaps = named (lookup name c.snapshots_by_name) in
      let free : is_conflict m.vol.id (named (lookup name t.cloud.snapshots_by_name)) ≡ false =
        ground (
          arith,
          m.after,
          lookup-insert name name (snaps ++ (snap ∷ [])) c.snapshots_by_name,
          is_conflict-append m.vol.id snaps snap m.no_conflict refl,
        ) in
      let there : lookup id t.cloud.volumes_by_id ≡ some m.vol =
        ground (arith, m.after, m.volume) in
      let again = create_snapshot-run name id t m.vol m.time m.passes there free m.parsed in
      let differ = u.distinct (suc c.drawn) c.drawn (omega arith) in
      (
        record {
          snapshot_id = U.uuid t.cloud.drawn;
          source_volume_id = m.vol.id;
          creation_time = m.time;
          ready_to_use = true;
        },
        record t { cloud = snapped name m.vol.id t.cloud },
        again,
        ground (arith, m.source),
        (λ same. differ (ground (arith, m.after, m.identifier, same))),
        ground (
          arith,
          m.after,
          m.identifier,
          m.source,
          differ,
          lookup-insert e.snapshot_id (U.uuid t.cloud.drawn) snap' t.cloud.snapshots_by_id,
          lookup-insert e.snapshot_id (U.uuid c.drawn) snap c.snapshots_by_id,
        ),
        ground (
          arith,
          m.after,
          m.source,
          lookup-insert (U.uuid t.cloud.drawn) (U.uuid t.cloud.drawn) snap' t.cloud.snapshots_by_id,
        ),
      )
