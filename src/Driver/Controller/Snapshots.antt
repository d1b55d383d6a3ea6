-- ===== src/Driver/Controller/Snapshots.antt =====
-- `CreateSnapshot`, `ListSnapshots` and `DeleteSnapshot` of pkg/driver/controller.go.
pub mod Pages
pub mod Twice
use cloudstack_csi_driver.Prelude.{
  ℕ, ◌-◌, Bool, true, false, not, ◌&&◌, ◌||◌, String, Option, none, some, List, [], ◌∷◌, map, ◌=?◌,
  if◌then◌else◌, length, take, drop,
}
use cloudstack_csi_driver.Prelude.Int.{ℤ, pos, pos_part, ltb_ℤ, add64}
use cloudstack_csi_driver.Prelude.Strconv.{atoi, itoa}
use cloudstack_csi_driver.Prelude.Prog.{Prog, ok, err, ◌>>=◌, ◌>>◌, pure, fail, require, or_fail}
use cloudstack_csi_driver.Util.VolumeLocks.{Sets}
use cloudstack_csi_driver.Cloud.{
  Connector, Volume, Snapshot, Err, is_not_found, is_already_exists, error_text,
}
use cloudstack_csi_driver.Driver.Csi.{
  Code, Failure, status, invalid_argument, internal, already_exists, aborted, not_found,
}
use cloudstack_csi_driver.Driver.Controller.{
  Server, Handler, Try, done, failed, call, or_missing, or_internal,
}

-- The time stamps of the answers, which `time.Parse` and timestamppb make of a text; the zero time
-- is what a failed `time.Parse` returns.
pub record Times : Type 1 where
  pub Time : Type 0
  pub zero_time : Time
  pub parse : String → Option Time

pub record SnapshotEntry (T : Times) : Type 0 where
  pub snapshot_id : String
  pub source_volume_id : String
  pub creation_time : T.Time
  pub ready_to_use : Bool

pub record ListSnapshotsRequest : Type 0 where
  -- An int32.
  pub max_entries : ℤ
  pub starting_token : String
  pub source_volume_id : String
  pub snapshot_id : String

pub record ListSnapshotsResponse (T : Times) : Type 0 where
  pub entries : List (SnapshotEntry T)
  pub next_token : String

-- The start of a page: 0 for no token, and none for a token that is no position of the list.
unfoldable pub page_start : String → ℕ → Option ℕ
page_start token n = if token =? "" then some 0 else elim (atoi token) [
  | none ↦ none
  | some start ↦ if ltb_ℤ start (pos 0) || ltb_ℤ (pos n) start then none else some (pos_part start)
]

-- The end of a page.
unfoldable pub page_end : ℤ → ℕ → ℕ → ℕ
page_end max_entries start n =
    let stop = add64 (pos start) max_entries in
    if ltb_ℤ (pos 0) max_entries && ltb_ℤ stop (pos n) then pos_part stop else n

unfoldable pub entry_of : (T : Times) → Snapshot → SnapshotEntry T
entry_of T snap = record {
  snapshot_id = snap.id;
  source_volume_id = snap.volume_id;
  creation_time = elim (T.parse snap.created_at) [ none ↦ T.zero_time | some t ↦ t ];
  ready_to_use = true;
}

-- The answer for the snapshots from `start` up to `stop`.
abbrev pub page : (T : Times) → List Snapshot → ℕ → ℕ → ListSnapshotsResponse T
page T snapshots start stop = record {
  entries = map (entry_of T) (take (stop - start) (drop start snapshots));
  next_token = if ltb_ℤ (pos stop) (pos (length snapshots)) then itoa stop else "";
}

module _ (L : Sets) (C : Connector) (T : Times) where
  abbrev pub source_volume : Try Volume → Handler L C Volume
  source_volume (done vol) = pure vol
  source_volume (failed e) =
      if error_text e =? "invalid volume ID: empty string"
      then fail (status invalid_argument)
      else if is_not_found e
      then fail (status not_found)
      else fail (status internal)

  abbrev pub snapshot_made : Try Snapshot → Handler L C Snapshot
  snapshot_made (done snap) = pure snap
  snapshot_made (failed e) =
      if is_already_exists e then fail (status already_exists) else fail (status internal)

  unfoldable pub create_snapshot : String → String → Handler L C (SnapshotEntry T)
  create_snapshot name volume_id = do
    require (not (name =? "")) (status invalid_argument)
    require (not (volume_id =? "")) (status invalid_argument)
    found ← call (C.get_volume_by_id volume_id)
    vol ← source_volume found
    result ← call (C.create_snapshot vol.id name)
    snap ← snapshot_made result
    t ← or_fail (T.parse snap.created_at) (status internal)
    pure (record {
      snapshot_id = snap.id;
      source_volume_id = vol.id;
      creation_time = t;
      ready_to_use = true;
    })

  unfoldable pub list_snapshots : ListSnapshotsRequest → Handler L C (ListSnapshotsResponse T)
  list_snapshots req = do
    result ← call (C.list_snapshots req.source_volume_id req.snapshot_id)
    snapshots ← or_internal result
    start ← or_fail (page_start req.starting_token (length snapshots)) (status aborted)
    pure (page T snapshots start (page_end req.max_entries start (length snapshots)))

  abbrev pub snapshot_deleted : Try (Unit {0}) → Handler L C (Unit {0})
  snapshot_deleted (done u) = pure tt
  snapshot_deleted (failed e) = if is_not_found e then pure tt else fail (status internal)

  unfoldable pub delete_snapshot : String → Handler L C (Unit {0})
  delete_snapshot id = do
    require (not (id =? "")) (status invalid_argument)
    result ← call (C.delete_snapshot id)
    snapshot_deleted result
