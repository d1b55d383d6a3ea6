-- ===== src/Driver/Version.antt =====
-- pkg/driver/version.go
use cloudstack_csi_driver.Prelude.{String, ◌<>◌, Option}

-- What the linker sets, and what the package runtime tells.
pub record Build : Type 0 where
  pub driver_version : String
  pub git_commit : String
  pub build_date : String
  pub go_version : String
  pub compiler : String
  pub goos : String
  pub goarch : String

pub record VersionInfo : Type 0 where
  pub driver_version : String
  pub git_commit : String
  pub build_date : String
  pub go_version : String
  pub compiler : String
  pub platform : String

unfoldable pub get_version : Build → VersionInfo
get_version b = record {
  driver_version = b.driver_version;
  git_commit = b.git_commit;
  build_date = b.build_date;
  go_version = b.go_version;
  compiler = b.compiler;
  platform = b.goos <> ("/" <> b.goarch);
}

-- `marshal_indent` is that of encoding/json; `none` is an error.
unfoldable pub get_version_json : (VersionInfo → Option String) → Build → Option String
get_version_json marshal_indent b = marshal_indent (get_version b)
