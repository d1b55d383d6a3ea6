-- ===== src/Driver/Topology/Laws.antt =====
-- Topologies survive the trip to CSI and back.
use cloudstack_csi_driver.Prelude.{some, ◌≡◌, arith, string_dec}
use cloudstack_csi_driver.Prelude.Maps.{lookup, insert}
use cloudstack_csi_driver.Driver.Topology.{Topology, new_topology, to_csi}

-- A topology that is converted to CSI and back is the same topology.
pub new_topology-to_csi : (t : Topology) → new_topology (to_csi t) ≡ some t
unfolding new_topology to_csi lookup insert string_dec
new_topology-to_csi t = ground arith
