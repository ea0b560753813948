-- ===== src/Charm.antt =====
-- charm/src: the Juju operator that runs the controller.
pub mod Logs
pub mod Adapter
pub mod Environment
pub mod Status
pub mod Unit
