-- ===== src/Driver/Controller/Create/Lifecycle.antt =====
-- A volume from its creation to its deletion, through the handlers of pkg/driver/controller.go, on
-- the fake connector.
use cloudstack_csi_driver.Prelude.{ℕ, String, false, none, some, ◌≡◌, arith, ◌=?◌}
use cloudstack_csi_driver.Prelude.Maps.{Map, lookup, lookup-insert, lookup-erase, erase}
use cloudstack_csi_driver.Prelude.Prog.{ok, final}
use cloudstack_csi_driver.Util.VolumeLocks.{Sets}
use cloudstack_csi_driver.Util.VolumeLocks
use cloudstack_csi_driver.Util.OperationLock.{held, get_delete_lock, try_acquire}
use cloudstack_csi_driver.Cloud.Fake.{
  Supply, FakeConnector, fake_connector, fake_node, store, made_volume,
}
use cloudstack_csi_driver.Cloud.Fake
use cloudstack_csi_driver.Driver.Csi.{CreateVolumeRequest, CreateVolumeResponse}
use cloudstack_csi_driver.Driver.Controller.{Server, with_volume_lock, with_operation_lock}
use cloudstack_csi_driver.Driver.Controller.Create.{create_volume, snapshot_id}
use cloudstack_csi_driver.Driver.Controller.Volumes.{delete_volume, delete_locked, delete_call}
use cloudstack_csi_driver.Driver.Controller.Create.Creation.{Made, create_volume-Made}

module _ (L : Sets) (U : Supply) where
  -- The volume is there, it is free, and its deletion takes it out of both maps.
  stored-get :
      (name id : String) (c c' : FakeConnector) (m : Made U name id c c')
      → lookup id c'.volumes_by_id ≡ some m.vol
  stored-get name id c c' m =
      ground (arith, m.stored, m.same_id, lookup-insert id m.vol.id m.vol c.volumes_by_id)

  -- The state of the connector after the deletion.
  abbrev pub deleted : String → FakeConnector → FakeConnector
  deleted id c = record c {
    volumes_by_id = erase id c.volumes_by_id;
    volumes_by_name = Fake.without (lookup id c.volumes_by_id) c.volumes_by_name;
  }

  deleted-volumes :
      (name id : String) (c c' : FakeConnector) (m : Made U name id c c') (k : String)
      → lookup name c.volumes_by_name ≡ none
      → lookup id c.volumes_by_id ≡ none
      → (lookup k (deleted id c').volumes_by_id ≡ lookup k c.volumes_by_id)
        × (lookup k (deleted id c').volumes_by_name ≡ lookup k c.volumes_by_name)
  deleted-volumes name id c c' m k gone fresh = (
    ground (
      arith,
      m.stored,
      m.same_id,
      fresh,
      lookup-erase k id c'.volumes_by_id,
      lookup-insert k m.vol.id m.vol c.volumes_by_id,
    ),
    ground (
      arith,
      m.stored,
      m.same_name,
      gone,
      stored-get name id c c' m,
      lookup-erase k m.vol.name c'.volumes_by_name,
      lookup-insert k m.vol.name m.vol c.volumes_by_name,
    ),
  )

  -- Where no lock is in the way the deletion succeeds.
  delete_volume-run :
      (id : String) (t : Server L (fake_connector U))
      → (id =? "") ≡ false
      → L.has t.volume_locks id ≡ false
      → held t.operation_locks.expands id ≡ false
      → held t.operation_locks.restores id ≡ false
      → (t' : Server L (fake_connector U)) × (delete_volume L (fake_connector U) id t ≡ ok tt t')
        × (t'.cloud ≡ deleted id t.cloud)
  unfolding delete_volume delete_locked delete_call with_volume_lock with_operation_lock
      VolumeLocks.try_acquire get_delete_lock try_acquire Fake.delete_volume
  delete_volume-run id t ne free expands restores =
      (final (delete_volume L (fake_connector U) id t), ground arith, ground arith)

  -- The identifier is new and no operation on it goes on.
  pub record IsFresh (id : String) (s : Server L (fake_connector U)) : Type 0 where
    pub not_empty : (id =? "") ≡ false
    pub unknown : lookup id s.cloud.volumes_by_id ≡ none
    pub unlocked : L.has s.volume_locks id ≡ false
    pub not_expanded : held s.operation_locks.expands id ≡ false
    pub not_restored : held s.operation_locks.restores id ≡ false

  -- A volume of a new name, made on the fake connector from no snapshot, whose identifier is new and
  -- free, is deleted by `DeleteVolume` with success; then the connector has under every identifier and
  -- every name what it had before the creation.
  pub volume_lifecycle :
      (draw : ℕ) (req : CreateVolumeRequest) (ps : Map String) (s t : Server L (fake_connector U))
      (resp : CreateVolumeResponse)
      → req.parameters ≡ some ps
      → snapshot_id req.volume_content_source ≡ ""
      → lookup req.name s.cloud.volumes_by_name ≡ none
      → IsFresh (U.uuid s.cloud.drawn) s
      → create_volume L (fake_connector U) draw req s ≡ ok resp t
      → (t' : Server L (fake_connector U)) × (delete_volume L (fake_connector U) resp.volume_id t
          ≡ ok tt t')
        × ((k : String)
            → (lookup k t'.cloud.volumes_by_id ≡ lookup k s.cloud.volumes_by_id)
              × (lookup k t'.cloud.volumes_by_name ≡ lookup k s.cloud.volumes_by_name))
  volume_lifecycle draw req ps s t resp e blank gone f h =
      let (m, operations, free) = create_volume-Made L U draw req ps s t resp e blank gone h in
      let id = resp.volume_id in
      let empty : (id =? "") ≡ false = rw m.drawn_id f.not_empty in
      let (t', run, after) =
        delete_volume-run id t empty (free id (rw m.drawn_id f.unlocked))
          (rw (operations, m.drawn_id) f.not_expanded)
          (rw (operations, m.drawn_id) f.not_restored) in
      (
        t',
        run,
        λ k.
            rw after
              (deleted-volumes req.name id s.cloud t.cloud m k gone (rw m.drawn_id f.unknown)),
      )
