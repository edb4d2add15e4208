-- ===== src/Fsm.antt =====
-- controllers/ciresource_fsm.go: the state machine of a CIResource.
pub mod Machine
pub mod Handlers
pub mod Process
pub mod Table
pub mod Flags
pub mod Timeout
pub mod Diagram
pub mod Release
pub mod Safety
pub mod Live
