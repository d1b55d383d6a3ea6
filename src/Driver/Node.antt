-- ===== src/Driver/Node.antt =====
-- `nodeServer` of pkg/driver/node.go: its state, and the steps that its handlers share.
pub mod Options
pub mod Stage
pub mod Publish
pub mod Expand
pub mod Locks
pub mod Table
pub mod Machine
pub mod Lifecycle
use cloudstack_csi_driver.Prelude.{
  ℕ, String, Bool, true, false, List, if◌then◌else◌, Option, ◌=?◌, not, none, some, [], ◌∷◌,
}
use cloudstack_csi_driver.Prelude.Int.{ℤ}
use cloudstack_csi_driver.Prelude.Prog.{
  Outcome, ok, err, Prog, ◌>>=◌, ◌>>◌, require, pure, or_fail, fail,
}
use cloudstack_csi_driver.Util.VolumeLocks.{Sets}
use cloudstack_csi_driver.Util.VolumeLocks
use cloudstack_csi_driver.Mount.{Mounter}
use cloudstack_csi_driver.Cloud.{Connector, Vm, Err}
use cloudstack_csi_driver.Driver.Csi.{Code, Failure, status, aborted, internal, CsiTopology}
use cloudstack_csi_driver.Driver.Topology.{to_csi}
use cloudstack_csi_driver.Driver.Controller.{Try, done, failed}

pub record NodeServer (L : Sets) (C : Connector) (M : Mounter) : Type 0 where
  pub volume_locks : L.Set
  pub max_volumes_per_node : ℤ
  pub node_name : String
  pub cloud : C.State
  pub machine : M.State

-- What a call of the mounter returned.
pub data Done (E A : Type 0) : Type 0 where
  did : A → Done E A
  broke : E → Done E A

pub record NodeGetInfoResponse : Type 0 where
  pub node_id : String
  pub accessible_topology : CsiTopology
  pub max_volumes_per_node : ℤ

pub data NodeCapability : Type 0 where
  stage_unstage_volume expand_volume get_volume_stats : NodeCapability

unfoldable pub node_get_capabilities : List NodeCapability
node_get_capabilities = stage_unstage_volume ∷ expand_volume ∷ get_volume_stats ∷ []

abbrev pub NodeHandler : Sets → Connector → Mounter → Type 0 → Type 0
NodeHandler L C M A = Prog Failure (NodeServer L C M) A

module _ {L : Sets} {C : Connector} {M : Mounter} where
  abbrev pub machine_returned :
      {A : Type 0}
      → NodeServer L C M
      → Outcome M.Error M.State A
      → Outcome Failure (NodeServer L C M) (Done M.Error A)
  machine_returned s (ok a m) = ok (did a) (record s { machine = m })
  machine_returned s (err e m) = ok (broke e) (record s { machine = m })

  -- A call of the mounter.
  abbrev pub run : {A : Type 0} → Prog M.Error M.State A → NodeHandler L C M (Done M.Error A)
  run op s = machine_returned s (op s.machine)

  abbrev pub or_broken : {A : Type 0} → Done M.Error A → NodeHandler L C M A
  or_broken (did a) s = ok a s
  or_broken (broke e) s = err (status internal) s

  -- The same, where an error is answered by Internal.
  abbrev pub run_or_fail : {A : Type 0} → Prog M.Error M.State A → NodeHandler L C M A
  run_or_fail op = do result ← run op; or_broken result

  abbrev pub cloud_returned :
      {A : Type 0}
      → NodeServer L C M
      → Outcome Err C.State A
      → Outcome Failure (NodeServer L C M) (Try A)
  cloud_returned s (ok a c) = ok (done a) (record s { cloud = c })
  cloud_returned s (err e c) = ok (failed e) (record s { cloud = c })

  -- A call of the connector.
  abbrev pub ask : {A : Type 0} → Prog Err C.State A → NodeHandler L C M (Try A)
  ask op s = cloud_returned s (op s.cloud)

  -- The deferred release of a volume lock, on every way out of the handler.
  abbrev pub unlock :
      {A : Type 0}
      → String
      → Outcome Failure (NodeServer L C M) A
      → Outcome Failure (NodeServer L C M) A
  unlock id (ok a s) = ok a (record s { volume_locks = VolumeLocks.release L id s.volume_locks })
  unlock id (err e s) = err e (record s { volume_locks = VolumeLocks.release L id s.volume_locks })

  -- `TryAcquire`, or the answer Aborted; then the rest of the handler under the lock.
  unfoldable pub with_lock : {A : Type 0} → String → NodeHandler L C M A → NodeHandler L C M A
  with_lock id body s =
      let r = VolumeLocks.try_acquire L id s.volume_locks in
      let s' = record s { volume_locks = r.1 } in
      if r.0 then unlock id (body s') else err (status aborted) s'

module _ (L : Sets) (C : Connector) (M : Mounter) where
  -- `NewNodeServer`, of a mounter that is given.
  unfoldable pub new_node_server : C.State → M.State → ℤ → String → NodeServer L C M
  new_node_server cloud machine limit name = record {
    volume_locks = VolumeLocks.new_volume_locks L;
    max_volumes_per_node = limit;
    node_name = name;
    cloud = cloud;
    machine = machine;
  }

  -- A failed look-up of the node is Internal.
  abbrev pub node_found : Try Vm → NodeHandler L C M Vm
  node_found (done vm) s = ok vm s
  node_found (failed e) s = err (status internal) s

  abbrev pub info : Vm → ℤ → NodeGetInfoResponse
  info vm limit = record {
    node_id = vm.id;
    accessible_topology = to_csi (record { zone_id = vm.zone_id; host_id = "" });
    max_volumes_per_node = limit;
  }

  unfoldable pub node_get_info : NodeHandler L C M NodeGetInfoResponse
  node_get_info s =
      (do
        require (not (s.node_name =? "")) (status internal)
        result ← ask (C.get_node_info s.node_name)
        vm ← node_found result
        require (not (vm.id =? "")) (status internal)
        require (not (vm.zone_id =? "")) (status internal)
        pure (info vm s.max_volumes_per_node))
        s
