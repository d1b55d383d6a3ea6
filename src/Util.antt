-- ===== src/Util.antt =====
-- pkg/util: sizes in GB, the endpoint, and the two kinds of locks on volumes.
pub mod Gb
pub mod VolumeLocks
pub mod OperationLock
pub mod Endpoint
