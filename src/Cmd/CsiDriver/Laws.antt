-- ===== src/Cmd/CsiDriver/Laws.antt =====
-- What the program has checked when it serves.
use cloudstack_csi_driver.Prelude.{String, Bool, false, List, inr, ◌≡◌}
use cloudstack_csi_driver.Prelude.Prog.{ok}
use cloudstack_csi_driver.Util.VolumeLocks.{Sets}
use cloudstack_csi_driver.Cloud.{Connector}
use cloudstack_csi_driver.Cloud.Config.{Config}
use cloudstack_csi_driver.Mount.{Mounter}
use cloudstack_csi_driver.Driver.Options.{Options}
use cloudstack_csi_driver.Driver.Options.Laws.{IsMode, InRange}
use cloudstack_csi_driver.Driver.Service.{CsiDriver}
use cloudstack_csi_driver.Driver.Service.Laws.{IsReady, services_of}
use cloudstack_csi_driver.Cmd.CsiDriver.{Process, parsed, configure, serve}

-- No flag changes the mode: there is none for it.
abbrev pub KeepsMode : Process → Type 0
KeepsMode P =
    (d : Options × List String) (args : List String) (v : Bool) (o : Options)
    → P.parse d args ≡ parsed v o
    → o.mode ≡ d.0.mode

module _ (P : Process) (L : Sets) (C : Connector) (M : Mounter) where
  -- The result of a program that has served.
  abbrev pub Served : List String → P.host.State → Type 0
  Served args t =
      (o : Options) × (configure P args ≡ inr (false, o))
      × IsMode o.mode
      × InRange o
      × ((d : CsiDriver L C M) × IsReady o d
          × ((u : P.host.State) × (P.grpc.serve (services_of d) u ≡ ok tt t)))
