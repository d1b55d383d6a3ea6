-- ===== src/Syncer.antt =====
-- pkg/syncer: storage classes of Kubernetes for the disk offerings of CloudStack.
pub mod Names
pub mod Classes
pub mod Run
pub mod Labels
pub mod Errors
