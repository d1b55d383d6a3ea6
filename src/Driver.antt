-- ===== src/Driver.antt =====
-- pkg/driver: the CSI services.
pub mod Csi
pub mod Topology
pub mod Sizes
pub mod Suitable
pub mod Controller
pub mod Node
pub mod Options
pub mod Service
pub mod Version
