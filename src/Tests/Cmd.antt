-- ===== src/Tests/Cmd.antt =====
-- Runs of the theorems on the programs and on the endpoint.
use cloudstack_csi_driver.Prelude.{
  ℕ, suc, String, true, false, some, List, [], ◌∷◌, ◌≡◌, refl, string_dec,
}
use cloudstack_csi_driver.Prelude.Prog.{ok}
use cloudstack_csi_driver.Prelude.Paths.{join, rendered}
use cloudstack_csi_driver.Prelude.Strings.{lowers_to, split}
use cloudstack_csi_driver.Util.Endpoint.{Host, parse_endpoint, unix_endpoint}
use cloudstack_csi_driver.Util.Endpoint.Laws.{IsEndpoint, parse_endpoint-IsEndpoint}
use cloudstack_csi_driver.Cloud.Config.{CsConfig}
use cloudstack_csi_driver.Driver.Options.{default_csi_endpoint}
use cloudstack_csi_driver.Driver.Service
use cloudstack_csi_driver.Driver.Service.{Grpc, services}
use cloudstack_csi_driver.Cmd.CsiDriver.{Process, parsed, serve}

-- The state counts the files that were removed.
abbrev host : Host
host = record {
  State = ℕ;
  Error = Unit {0};
  is_not_exist = λ e. true;
  remove = λ path s. ok tt (suc s);
  parse_url = λ text. some (record { scheme = "unix"; host = "tmp"; path = "/csi.sock" });
}

default_endpoint : parse_endpoint host default_csi_endpoint 0 ≡ ok ("unix", "/tmp/csi.sock") 1
unfolding parse_endpoint unix_endpoint join rendered lowers_to string_dec split
default_endpoint = refl

parse_endpoint-IsEndpoint_example : IsEndpoint host "unix" "/tmp/csi.sock" 0 1
parse_endpoint-IsEndpoint_example =
    parse_endpoint-IsEndpoint host default_csi_endpoint "unix" "/tmp/csi.sock" 0 1 default_endpoint

abbrev section : CsConfig
section = record {
  api_url = "https://cloud/client/api";
  api_key = "k";
  secret_key = "s";
  ssl_no_verify = false;
  project_id = "";
  zone = "";
}

-- A process whose flags are not given.
abbrev process : Process
process = record {
  host = host;
  grpc = record { listen = λ scheme addr s. ok tt s; serve = λ services s. ok tt s };
  parse = λ d args. parsed false d.0;
  logging_is_valid = true;
  build = record {
    driver_version = "v3";
    git_commit = "";
    build_date = "";
    go_version = "go1.23";
    compiler = "gc";
    goos = "linux";
    goarch = "amd64";
  };
  marshal_indent = λ info. some info.platform;
  read_file_into = λ path. some section;
}

abbrev arguments : List String
arguments = "node" ∷ []
