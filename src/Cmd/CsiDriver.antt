-- ===== src/Cmd/CsiDriver.antt =====
-- cmd/cloudstack-csi-driver/main.go. The formats of the logs and what is printed are left out.
pub mod Laws
use cloudstack_csi_driver.Prelude.{
  ℕ, String, Bool, true, false, not, ◌||◌, Option, none, some, List, [], ◌∷◌, ◌=?◌, if◌then◌else◌,
  codes, ◌⊎◌, inl, inr,
}
use cloudstack_csi_driver.Prelude.Strings.{starts_with}
use cloudstack_csi_driver.Prelude.Prog.{
  Prog, ok, err, ◌>>=◌, ◌>>◌, pure, fail, require, or_fail, map_err,
}
use cloudstack_csi_driver.Util.VolumeLocks.{Sets}
use cloudstack_csi_driver.Util.Endpoint.{Host}
use cloudstack_csi_driver.Cloud.{Connector}
use cloudstack_csi_driver.Cloud.Config.{Config, CsConfig, read_config}
use cloudstack_csi_driver.Mount.{Mounter}
use cloudstack_csi_driver.Driver.Options.{
  Options, options_of, add_flags, validate, controller_mode, node_mode, all_mode,
}
use cloudstack_csi_driver.Driver.Version.{Build, VersionInfo, get_version_json}
use cloudstack_csi_driver.Driver.Service.{CsiDriver, new, Grpc, run}

-- What `fs.Parse` does: it ends the process, it fails, or it yields whether the version is asked for
-- and the options.
pub data Parsed : Type 0 where
  ended : ℕ → Parsed
  failed : Parsed
  parsed : Bool → Options → Parsed

-- The code that is called and is not part of the repository, and what it answers.
pub record Process : Type 1 where
  pub host : Host
  pub grpc : Grpc host
  -- github.com/spf13/pflag: the defaults with the names of the flags, and the arguments.
  pub parse : Options × List String → List String → Parsed
  pub logging_is_valid : Bool
  pub build : Build
  -- encoding/json
  pub marshal_indent : VersionInfo → Option String
  pub read_file_into : String → Option CsConfig

-- The mode and the other arguments, of those after the name of the program.
unfoldable pub command : List String → String × List String
command [] = (all_mode, [])
command (arg ∷ args) =
    if not (starts_with (codes "-") (codes arg)) then (arg, args) else (all_mode, arg ∷ args)

-- The exit code, or what to start: each of these errors exits with 0.
abbrev pub validated : Parsed → ℕ ⊎ (Bool × Options)
validated (ended code) = inl code
validated failed = inl 0
validated (parsed show_version o) = if validate o then inr (show_version, o) else inl 0

abbrev pub is_known : String → Bool
is_known cmd = (cmd =? controller_mode) || (cmd =? node_mode) || (cmd =? all_mode)

unfoldable pub configure : Process → List String → ℕ ⊎ (Bool × Options)
unfolding command
configure P args =
    let c = command args in
    if is_known c.0 then validated (P.parse (add_flags (options_of c.0)) c.1) else inl 0

module _ (P : Process) (L : Sets) (C : Connector) (M : Mounter) where
  unfoldable pub serve : (Config → C.State) → M.State → Options → Prog ℕ P.host.State (Unit {0})
  serve connect machine o = do
    config ← or_fail (read_config P.read_file_into o.cloud_stack_config) 1
    d ← or_fail (new L C M (connect config) machine o) 1
    map_err {F = ℕ} (λ e. 1) (run P.host P.grpc d.options)

  abbrev pub start :
      (Config → C.State) → M.State → ℕ ⊎ (Bool × Options) → Prog ℕ P.host.State (Unit {0})
  start connect machine (inl code) = fail code
  start connect machine (inr (show_version, o)) = do
    require P.logging_is_valid 1
    if show_version
        then (do json ← or_fail (get_version_json P.marshal_indent P.build) 1; fail 0)
        else serve connect machine o

  -- An error is the code of an exit before the end.
  unfoldable pub main : (Config → C.State) → M.State → List String → Prog ℕ P.host.State (Unit {0})
  main connect machine args = start connect machine (configure P args)
