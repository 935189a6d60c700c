-- ===== src/Client.antt =====
-- The client: its package cache, the choice of a strategy for a package, its installation, and the
-- daemon that is connected to the cloud, its settings, and the sync of its metadata.
pub mod Cache
pub mod Resolver
pub mod Installer
pub mod Daemon
pub mod Config
pub mod Sync
