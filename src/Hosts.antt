-- ===== src/Hosts.antt =====
-- The rules for HTTP hosts in lib/file/db.go: which entry serves a request (GetInfoByHost), and which
-- entries of different owners stand in each other's way (IsHostRouteConflict). A name is given
-- without its port (common.GetIpByAddr), and net.ParseIP is a parameter.
pub mod Rules
pub mod Routes
pub mod Shadows
pub mod Isolation
pub mod Best
