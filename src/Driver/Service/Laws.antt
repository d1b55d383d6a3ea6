-- ===== src/Driver/Service/Laws.antt =====
-- Which services a driver has, and which run.
use cloudstack_csi_driver.Prelude.{
  Option, none, some, List, [], ◌∷◌, ◌++◌, ◌≡◌, ◌≢◌, arith, string_dec, refl, inl, inr,
}
use cloudstack_csi_driver.Prelude.Prog.{ok, err, Outcome-cases}
use cloudstack_csi_driver.Util.VolumeLocks.{Sets}
use cloudstack_csi_driver.Util.Endpoint.{Host, parse_endpoint}
use cloudstack_csi_driver.Cloud.{Connector}
use cloudstack_csi_driver.Mount.{Mounter}
use cloudstack_csi_driver.Driver.Options.{Options, validate_mode}
use cloudstack_csi_driver.Driver.Options.Laws.{IsMode, is_controller, is_node, is_all}
use cloudstack_csi_driver.Driver.Service.{
  CsiDriver, new, Service, identity, controller, node, services, run, Grpc, unknown_mode,
  new_controller_server, new_node_server,
}

-- The service of a server, if there is one.
abbrev pub of_server : {A : Type 0} → Service → Option A → List Service
of_server service none = []
of_server service (some server) = service ∷ []

abbrev pub services_of : {L : Sets} {C : Connector} {M : Mounter} → CsiDriver L C M → List Service
services_of d = identity ∷ (of_server controller d.controller ++ of_server node d.node)

-- A driver whose services are those of its mode.
pub record IsReady {L : Sets} {C : Connector} {M : Mounter} (o : Options) (d : CsiDriver L C M)
    : Type 0 where
  pub options : d.options ≡ o
  pub running : services o.mode ≡ some (services_of d)

-- Where a run returns, the services of the mode were served.
pub run_served :
    (H : Host) (G : Grpc H) (l : List Service) (o : Options) (s t : H.State)
    → services o.mode ≡ some l
    → run H G o s ≡ ok tt t
    → (u : H.State) × (G.serve l u ≡ ok tt t)
unfolding run
run_served H G l o s t e h = elim (Outcome-cases (parse_endpoint H o.endpoint s)) [
  | inr (x, u, f) ↦ absurd (ground arith)
  | inl ((scheme, addr), u, f) ↦ elim (Outcome-cases (G.listen scheme addr u)) [
    | inr (x, v, g) ↦ absurd (ground arith)
    | inl (w, v, g) ↦ elim (Outcome-cases (G.serve l v)) [
      | inr (x, y, k) ↦ absurd (ground arith)
      | inl (w', y, k) ↦ (v, ground arith)
    ]
  ]
]

-- Where the mode is known, a run does not fail for it.
pub run_knows_mode :
    (H : Host) (G : Grpc H) (l : List Service) (o : Options) (s t : H.State)
    → services o.mode ≡ some l
    → run H G o s ≢ err unknown_mode t
unfolding run
run_knows_mode H G l o s t e h = elim (Outcome-cases (parse_endpoint H o.endpoint s)) [
  | inr (x, u, f) ↦ ground arith
  | inl ((scheme, addr), u, f) ↦ elim (Outcome-cases (G.listen scheme addr u)) [
    | inr (x, v, g) ↦ ground arith
    | inl (w, v, g) ↦ elim (Outcome-cases (G.serve l v)) [
      | inr (x, y, k) ↦ ground arith
      | inl (w', y, k) ↦ ground arith
    ]
  ]
]

module _ (L : Sets) (C : Connector) (M : Mounter) where
  pub new_known :
      (cloud : C.State) (machine : M.State) (o : Options)
      → IsMode o.mode
      → (d : CsiDriver L C M) × (new L C M cloud machine o ≡ some d) × IsReady o d
  unfolding new services validate_mode string_dec
  new_known cloud machine o (is_controller e) = (
    record { controller = some (new_controller_server L C cloud); node = none; options = o },
    rw e refl,
    record { options = refl; running = rw e refl },
  )
  new_known cloud machine o (is_node e) = (
    record {
      controller = none;
      node = some (new_node_server L C M cloud machine o.volume_attach_limit o.node_name);
      options = o;
    },
    rw e refl,
    record { options = refl; running = rw e refl },
  )
  new_known cloud machine o (is_all e) = (
    record {
      controller = some (new_controller_server L C cloud);
      node = some (new_node_server L C M cloud machine o.volume_attach_limit o.node_name);
      options = o;
    },
    rw e refl,
    record { options = refl; running = rw e refl },
  )
