-- ===== src/Driver/Options.antt =====
-- pkg/driver/options.go, and the modes and the defaults of pkg/driver/constants.go.
pub mod Laws
use cloudstack_csi_driver.Prelude.{
  String, Bool, true, false, not, ◌&&◌, ◌||◌, List, [], ◌∷◌, ◌++◌, ◌=?◌, if◌then◌else◌,
}
use cloudstack_csi_driver.Prelude.Int.{ℤ, pos, ltb_ℤ}

abbrev pub controller_mode : String
controller_mode = "controller"

abbrev pub node_mode : String
node_mode = "node"

abbrev pub all_mode : String
all_mode = "all"

abbrev pub default_csi_endpoint : String
default_csi_endpoint = "unix://tmp/csi.sock"

abbrev pub default_max_vol_attach_limit : ℤ
default_max_vol_attach_limit = pos 256

pub record Options : Type 0 where
  pub mode : String
  pub endpoint : String
  pub cloud_stack_config : String
  pub node_name : String
  pub volume_attach_limit : ℤ

-- `Options{}` with a mode.
abbrev pub options_of : String → Options
options_of mode = record {
  mode = mode;
  endpoint = "";
  cloud_stack_config = "";
  node_name = "";
  volume_attach_limit = pos 0;
}

unfoldable pub with_node : Options → Bool
with_node o = (o.mode =? all_mode) || (o.mode =? node_mode)

-- The options with their defaults, and the names of the flags.
unfoldable pub add_flags : Options → Options × List String
add_flags o =
    let server = record o {
      endpoint = default_csi_endpoint;
      cloud_stack_config = "./cloud-config";
    } in
    if with_node o
    then (
      record server { node_name = ""; volume_attach_limit = default_max_vol_attach_limit },
      "endpoint" ∷ "cloudstack-config" ∷ "node-name" ∷ "volume-attach-limit" ∷ [],
    )
    else (server, "endpoint" ∷ "cloudstack-config" ∷ [])

-- Whether there is no error.
unfoldable pub validate : Options → Bool
validate o =
    if with_node o
    then not (ltb_ℤ o.volume_attach_limit (pos 1) || ltb_ℤ (pos 256) o.volume_attach_limit)
    else true

unfoldable pub validate_mode : String → Bool
validate_mode mode =
    not (not (mode =? all_mode) && not (mode =? controller_mode) && not (mode =? node_mode))
