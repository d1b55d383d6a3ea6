-- ===== src/Cloud/Config.antt =====
-- pkg/cloud/config.go
use cloudstack_csi_driver.Prelude.{String, Bool, not, Option, none, some}

pub record Config : Type 0 where
  pub api_url : String
  pub api_key : String
  pub secret_key : String
  pub verify_ssl : Bool
  pub project_id : String

-- The section `Global` of the file.
pub record CsConfig : Type 0 where
  pub api_url : String
  pub api_key : String
  pub secret_key : String
  pub ssl_no_verify : Bool
  pub project_id : String
  pub zone : String

abbrev pub config_of : Option CsConfig → Option Config
config_of none = none
config_of (some cfg) = some (record {
  api_url = cfg.api_url;
  api_key = cfg.api_key;
  secret_key = cfg.secret_key;
  verify_ssl = not cfg.ssl_no_verify;
  project_id = cfg.project_id;
})

-- `read_file_into` is that of gopkg.in/gcfg.v1, which fails or fills the section.
unfoldable pub read_config : (String → Option CsConfig) → String → Option Config
read_config read_file_into config_file_path = config_of (read_file_into config_file_path)
