-- ===== src/Cloud/Client/Laws.antt =====
-- What the client makes of the answers of the API.
use cloudstack_csi_driver.Prelude.{ℕ, String, List, [], ◌∷◌, ◌≡◌, arith, length}
use cloudstack_csi_driver.Prelude.Int.{pos}
use cloudstack_csi_driver.Prelude.Prog.{Prog, ◌>>=◌, pure, ok, err}
use cloudstack_csi_driver.Cloud.{Snapshot, Volume, not_found, too_many_results}
use cloudstack_csi_driver.Cloud.Client.Sdk.{Api, Listing, ApiVolume}
use cloudstack_csi_driver.Cloud.Client.{
  Fault, error, single, volume_of, set_unless_empty, get_snapshot_by_id, get_volume_by_id,
  list_volumes, some, none,
}

-- The volume of a list that has exactly one.
abbrev pub exactly_one : {S : Type 0} → List ApiVolume → Prog Fault S Volume
exactly_one [] s = err (error not_found) s
exactly_one (v ∷ []) s = ok (volume_of v) s
exactly_one (v ∷ w ∷ vs) s = err (error too_many_results) s

single_lem :
    {S : Type 0} (n : ℕ) (items : List ApiVolume) (s : S)
    → n ≡ length items
    → (single (record { count = n; items = items }) >>= λ v. pure (volume_of v)) s
      ≡ exactly_one items s
unfolding single
single_lem n [] s e = ground arith
single_lem n (v ∷ []) s e = ground arith
single_lem n (v ∷ w ∷ vs) s e = ground arith

module _ (A : Api) where
  -- Where the API answers a list of volumes for an identifier, with its length as the count, the
  -- client answers with the volume if there is exactly one, with not found if there is none, and
  -- with too many results if there are more; it does not panic, and its state is that after the one
  -- call.
  pub get_volume_by_id_lem :
      (project id : String) (s : A.State) (l : Listing ApiVolume) (s' : A.State)
      → A.list_volumes
          (record { id = some id; name = none; project_id = set_unless_empty project })
          s
        ≡ ok l s'
      → l.count ≡ length l.items
      → get_volume_by_id A project id s ≡ exactly_one l.items s'
  unfolding get_volume_by_id list_volumes
  get_volume_by_id_lem project id s l s' e h =
      let one = single_lem l.count l.items s' h in ground (arith, one, e)

  -- In every snapshot that the client finds by an identifier the size is 0 and the time of creation
  -- is empty.
  pub get_snapshot_by_id_size :
      (project id : String) (s : A.State) (snap : Snapshot) (s' : A.State)
      → get_snapshot_by_id A project id s ≡ ok snap s'
      → (snap.size ≡ pos 0) × (snap.created_at ≡ "")
  unfolding get_snapshot_by_id single
  get_snapshot_by_id_size project id s snap s' e = ground arith
