-- ===== src/System.antt =====
-- The server and the controller of resources at the cluster that they share.
pub mod Circulation
