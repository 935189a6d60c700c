-- ===== src/Client/Installer.antt =====
-- client/installer.py: a package is installed by the strategies of its resolution in their order.
pub mod World
pub mod Strategies
pub mod Install
pub mod Attempts
pub mod Unverified
mod Tests
