-- ===== src/Driver/Service.antt =====
-- pkg/driver/driver.go and identity.go: the services that a driver registers, and the answers of the
-- identity service.
pub mod Laws
use cloudstack_csi_driver.Prelude.{
  String, Bool, true, false, not, Option, none, some, List, [], ◌∷◌, ◌++◌, ◌=?◌, if◌then◌else◌,
}
use cloudstack_csi_driver.Prelude.Prog.{Prog, ok, err, ◌>>=◌, pure, fail, map_err}
use cloudstack_csi_driver.Util.VolumeLocks.{Sets}
use cloudstack_csi_driver.Util.Endpoint.{Host, EndpointError, parse_endpoint}
use cloudstack_csi_driver.Cloud.{Connector}
use cloudstack_csi_driver.Mount.{Mounter}
use cloudstack_csi_driver.Driver.Csi.{driver_name}
use cloudstack_csi_driver.Driver.Options.{
  Options, controller_mode, node_mode, all_mode, validate_mode,
}
use cloudstack_csi_driver.Driver.Controller.{Server, new_controller_server}
use cloudstack_csi_driver.Driver.Node.{NodeServer, new_node_server}

pub data PluginCapability : Type 0 where
  controller_service volume_accessibility_constraints : PluginCapability

-- The name, and the version that the build sets.
unfoldable pub get_plugin_info : String → String × String
get_plugin_info driver_version = (driver_name, driver_version)

unfoldable pub get_plugin_capabilities : List PluginCapability
get_plugin_capabilities = controller_service ∷ volume_accessibility_constraints ∷ []

-- `cloudstackDriver`
pub record CsiDriver (L : Sets) (C : Connector) (M : Mounter) : Type 0 where
  pub controller : Option (Server L C)
  pub node : Option (NodeServer L C M)
  pub options : Options

module _ (L : Sets) (C : Connector) (M : Mounter) where
  -- Both servers start on the connector that is handed in; `none` is an error.
  unfoldable pub new : C.State → M.State → Options → Option (CsiDriver L C M)
  unfolding new_controller_server new_node_server
  new cloud machine o =
      let c = new_controller_server L C cloud in
      let n = new_node_server L C M cloud machine o.volume_attach_limit o.node_name in
      if not (validate_mode o.mode)
      then none
      else if o.mode =? controller_mode
      then some (record { controller = some c; node = none; options = o })
      else if o.mode =? node_mode
      then some (record { controller = none; node = some n; options = o })
      else if o.mode =? all_mode
      then some (record { controller = some c; node = some n; options = o })
      else none

pub data Service : Type 0 where
  identity controller node : Service

pub data RunError (E : Type 0) : Type 0 where
  endpoint : EndpointError E → RunError E
  failed_to_listen failed_to_serve : E → RunError E
  unknown_mode : RunError E

-- net and google.golang.org/grpc, on the files of the machine.
pub record Grpc (H : Host) : Type 0 where
  pub listen : String → String → Prog H.Error H.State (Unit {0})
  pub serve : List Service → Prog H.Error H.State (Unit {0})

-- The services of a mode; `none` for an unknown one.
unfoldable pub services : String → Option (List Service)
services mode =
    if mode =? controller_mode
    then some (identity ∷ controller ∷ [])
    else if mode =? node_mode
    then some (identity ∷ node ∷ [])
    else if mode =? all_mode
    then some (identity ∷ controller ∷ node ∷ [])
    else none

module _ (H : Host) (G : Grpc H) where
  abbrev pub served : Option (List Service) → Prog (RunError H.Error) H.State (Unit {0})
  served none = fail unknown_mode
  served (some l) = map_err failed_to_serve (G.serve l)

  unfoldable pub run : Options → Prog (RunError H.Error) H.State (Unit {0})
  run o = do
    e ← map_err {F = RunError H.Error} endpoint (parse_endpoint H o.endpoint)
    u ← map_err failed_to_listen (G.listen e.0 e.1)
    served (services o.mode)
