-- ===== src/Util/Endpoint.antt =====
-- pkg/util/endpoint.go
pub mod Laws
use cloudstack_csi_driver.Prelude.{
  String, Bool, Option, none, some, List, [], ◌∷◌, if◌then◌else◌, ◌⊎◌, inl, inr,
}
use cloudstack_csi_driver.Prelude.Paths.{join}
use cloudstack_csi_driver.Prelude.Strings.{lowers_to}
use cloudstack_csi_driver.Prelude.Prog.{Prog, ok, err, ◌>>=◌, pure, fail, or_fail, attempt}

pub record Url : Type 0 where
  pub scheme : String
  pub host : String
  pub path : String

-- net/url, and the files of the machine.
pub record Host : Type 1 where
  pub State : Type 0
  pub Error : Type 0
  pub is_not_exist : Error → Bool
  pub remove : String → Prog Error State (Unit {0})
  pub parse_url : String → Option Url

pub data EndpointError (E : Type 0) : Type 0 where
  could_not_parse unsupported : EndpointError E
  could_not_remove : E → EndpointError E

module _ (H : Host) where
  abbrev pub address : Url → String
  address u = join (u.host ∷ u.path ∷ [])

  -- After the removal of the socket file.
  abbrev pub removed :
      String → H.Error ⊎ Unit {0} → Prog (EndpointError H.Error) H.State (String × String)
  removed addr (inr u) = pure ("unix", addr)
  removed addr (inl e) = if H.is_not_exist e then pure ("unix", addr) else fail (could_not_remove e)

  unfoldable pub unix_endpoint : String → Prog (EndpointError H.Error) H.State (String × String)
  unix_endpoint addr = do result ← attempt (H.remove addr); removed addr result

  unfoldable pub parse_endpoint : String → Prog (EndpointError H.Error) H.State (String × String)
  parse_endpoint endpoint = do
    u ← or_fail (H.parse_url endpoint) could_not_parse
    if lowers_to u.scheme "tcp"
        then pure ("tcp", address u)
        else if lowers_to u.scheme "unix"
        then unix_endpoint (join ("/" ∷ address u ∷ []))
        else fail unsupported
