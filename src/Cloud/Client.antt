-- ===== src/Cloud/Client.antt =====
-- The connector of pkg/cloud over the API of CloudStack: volumes.go, snapshots.go, vms.go, node.go
-- and zones.go. Logging is left out.
pub mod Sdk
pub mod Laws
use cloudstack_csi_driver.Cloud.Client.Sdk.{
  Api, ApiVolume, ApiSnapshot, ApiVm, Listing, ListVolumesParams, CreateVolumeParams,
  ListSnapshotsParams, ListVmsParams,
}
use cloudstack_csi_driver.Prelude.{
  ℕ, String, Bool, true, false, not, ◌&&◌, ◌||◌, Option, none, some, List, [], ◌∷◌, ◌=?◌, ◌==◌, ltb,
  map, if◌then◌else◌, codes, ◌<>◌, suc,
}
use cloudstack_csi_driver.Prelude.Int.{ℤ, pos, negsuc}
use cloudstack_csi_driver.Prelude.Strconv.{itoa}
use cloudstack_csi_driver.Prelude.Strings.{contains}
use cloudstack_csi_driver.Cloud.Metadata.{metadata_instance_id}
use cloudstack_csi_driver.Prelude.Prog.{Prog, ok, err, ◌>>=◌, ◌>>◌, pure, fail, Outcome, require}
use cloudstack_csi_driver.Cloud.{
  Volume, Snapshot, Vm, Err, not_found, too_many_results, other, wrap, error_text,
}

-- How a method of the client fails: with a Go error, or by the panic of an index out of range.
pub data Fault : Type 0 where
  error : Err → Fault
  panic : Fault

abbrev pub set_unless_empty : String → Option String
set_unless_empty s = if not (s =? "") then some s else none

-- `strconv.FormatInt(n, 10)`
abbrev pub format_int : ℤ → String
format_int (pos n) = itoa n
format_int (negsuc n) = "-" <> itoa (suc n)

abbrev pub volume_of : ApiVolume → Volume
volume_of v = record {
  id = v.id;
  name = v.name;
  size = v.size;
  disk_offering_id = v.disk_offering_id;
  domain_id = v.domain_id;
  project_id = v.project_id;
  zone_id = v.zone_id;
  virtual_machine_id = v.virtual_machine_id;
  device_id = format_int v.device_id;
}

-- A snapshot of the API, with the size and the time that a method copies.
abbrev pub snapshot_of : ApiSnapshot → ℤ → String → Snapshot
snapshot_of s size created = record {
  id = s.id;
  name = s.name;
  size = size;
  domain_id = s.domain_id;
  project_id = s.project_id;
  zone_id = s.zone_id;
  volume_id = s.volume_id;
  created_at = created;
}

abbrev pub vm_of : ApiVm → Vm
vm_of v = record { id = v.id; zone_id = v.zone_id }

-- The error 4350 of the API, InvalidParameterValueException.
unfoldable pub is_invalid_parameter : Err → Bool
is_invalid_parameter e = contains (codes "4350") (codes (error_text e))

module _ {S : Type 0} where
  -- The error of a call is returned as it is.
  abbrev pub returned : {A : Type 0} → Outcome Err S A → Outcome Fault S A
  returned (ok a s) = ok a s
  returned (err e s) = err (error e) s

  abbrev pub call : {A : Type 0} → Prog Err S A → Prog Fault S A
  call op s = returned (op s)

  -- The same, wrapped by `%w`.
  abbrev pub wrapped : {A : Type 0} → String → Outcome Err S A → Outcome Fault S A
  wrapped text (ok a s) = ok a s
  wrapped text (err e s) = err (error (wrap text e)) s

  -- `l.Items[0]`
  abbrev pub first : {A : Type 0} → List A → Prog Fault S A
  first [] s = err panic s
  first (a ∷ items) s = ok a s

  -- The one result of a list call.
  unfoldable pub single : {A : Type 0} → Listing A → Prog Fault S A
  single l = do
    require (not (l.count == 0)) (error not_found)
    require (not (ltb 1 l.count)) (error too_many_results)
    first l.items

  -- A deletion that the API refuses with 4350 is one of an object that is not found.
  abbrev pub deletion : Outcome Err S (Unit {0}) → Outcome Fault S (Unit {0})
  deletion (ok u s) = ok tt s
  deletion (err e s) = err (error (if is_invalid_parameter e then not_found else e)) s

module _ (A : Api) where
  -- `project` is the project of the client, empty for none.
  unfoldable pub list_volumes : ListVolumesParams → Prog Fault A.State Volume
  list_volumes p = do l ← call (A.list_volumes p); v ← single l; pure (volume_of v)

  unfoldable pub get_volume_by_id : String → String → Prog Fault A.State Volume
  unfolding list_volumes
  get_volume_by_id project id =
      list_volumes (record { id = some id; name = none; project_id = set_unless_empty project })

  unfoldable pub get_volume_by_name : String → Prog Fault A.State Volume
  unfolding list_volumes
  get_volume_by_name name = list_volumes (record { id = none; name = some name; project_id = none })

  unfoldable pub create_volume : String → String → String → String → ℤ → Prog Fault A.State String
  create_volume project offering zone name size = do
    vol ← call (
        A.create_volume (record {
          disk_offering_id = some offering;
          zone_id = some zone;
          name = some name;
          size = some size;
          project_id = set_unless_empty project;
          snapshot_id = none;
        }))
    pure vol.id

  unfoldable pub delete_volume : String → Prog Fault A.State (Unit {0})
  delete_volume id s = deletion (A.delete_volume id s)

  unfoldable pub attach_volume : String → String → Prog Fault A.State String
  attach_volume volume_id vm_id = do
    device ← call (A.attach_volume volume_id vm_id)
    pure (format_int device)

  unfoldable pub detach_volume : String → Prog Fault A.State (Unit {0})
  detach_volume volume_id = call (A.detach_volume volume_id)

  unfoldable pub expand_volume : String → ℤ → Prog Fault A.State (Unit {0})
  expand_volume volume_id size = do
    v ← λ s.
        wrapped ("failed to retrieve volume '" <> volume_id <> "'") (A.get_volume_by_id volume_id s)
    require (not (not (v.state =? "Allocated") && not (v.state =? "Ready"))) (
        error (
          other
            ("volume '" <> volume_id <> "' is not in 'Allocated' or 'Ready' state to get resized")))
    λ s.
        wrapped ("failed to expand volume '" <> volume_id <> "'") (A.resize_volume volume_id size s)

  -- zone, name, project, snapshot, size
  unfoldable pub create_volume_from_snapshot :
      String → String → String → String → ℤ → Prog Fault A.State Volume
  create_volume_from_snapshot zone name project snapshot size = do
    v ← λ s. wrapped ("failed to create volume from snapshot '" <> snapshot <> "'") (
        A.create_volume
          (record {
            disk_offering_id = none;
            zone_id = some zone;
            name = some name;
            size = some size;
            project_id = set_unless_empty project;
            snapshot_id = some snapshot;
          })
          s)
    pure (volume_of v)

  -- The size and the time stay at their zero values.
  unfoldable pub get_snapshot_by_id : String → String → Prog Fault A.State Snapshot
  get_snapshot_by_id project id = do
    l ← call (
        A.list_snapshots (record {
          id = set_unless_empty id;
          name = none;
          volume_id = none;
          project_id = set_unless_empty project;
        }))
    v ← single l
    pure (snapshot_of v (pos 0) "")

  -- The error is a gRPC status of code Internal, in which no other error is wrapped.
  abbrev pub opaque : {B : Type 0} → Outcome Err A.State B → Outcome Fault A.State B
  opaque (ok b s) = ok b s
  opaque (err e s) =
      err (error (other ("rpc error: code = Internal desc = Error " <> error_text e))) s

  unfoldable pub create_snapshot : String → String → Prog Fault A.State Snapshot
  create_snapshot volume_id name = do
    v ← λ s. opaque (A.create_snapshot volume_id (set_unless_empty name) s)
    pure (snapshot_of v v.virtual_size v.created)

  unfoldable pub delete_snapshot : String → Prog Fault A.State (Unit {0})
  delete_snapshot id s = deletion (A.delete_snapshot id s)

  -- The size stays at its zero value.
  unfoldable pub get_snapshot_by_name : String → String → Prog Fault A.State Snapshot
  get_snapshot_by_name project name = do
    require (not (name =? "")) (error not_found)
    l ← call (
        A.list_snapshots (record {
          id = none;
          name = some name;
          volume_id = none;
          project_id = set_unless_empty project;
        }))
    v ← single l
    pure (snapshot_of v (pos 0) v.created)

  abbrev pub all_snapshots : List ApiSnapshot → List Snapshot
  all_snapshots items = map (λ v. snapshot_of v v.virtual_size v.created) items

  -- project, volume, snapshot
  unfoldable pub list_snapshots : String → String → String → Prog Fault A.State (List Snapshot)
  list_snapshots project volume_id id = do
    l ← call (
        A.list_snapshots (record {
          id = set_unless_empty id;
          name = none;
          volume_id = set_unless_empty volume_id;
          project_id = set_unless_empty project;
        }))
    pure (if l.count == 0 then [] else all_snapshots l.items)

  unfoldable pub get_vm_by_id : String → String → Prog Fault A.State Vm
  get_vm_by_id project id = do
    l ←
        call
          (A.list_vms (record { id = some id; name = none; project_id = set_unless_empty project }))
    v ← single l
    pure (vm_of v)

  unfoldable pub get_vm_by_name : String → Prog Fault A.State Vm
  get_vm_by_name name = do
    l ← call (A.list_vms (record { id = none; name = some name; project_id = none }))
    v ← single l
    pure (vm_of v)

  unfoldable pub get_node_info : String → String → Prog Fault A.State Vm
  get_node_info project vm_name =
      if not (metadata_instance_id A.machine =? "")
      then get_vm_by_id project (metadata_instance_id A.machine)
      else get_vm_by_name vm_name

  unfoldable pub list_zones_id : Prog Fault A.State (List String)
  list_zones_id = call A.list_available_zones
