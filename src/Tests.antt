-- ===== src/Tests.antt =====
-- Concrete runs of each part's theorems.
mod Frames
mod Queues
mod Windows
mod Quotas
mod Registry
mod Lists
mod Devices
mod Files
mod Rates
mod Logins
mod Traffic
mod Peers
mod Sessions
mod Routes
