-- ===== src/Virtualization.antt =====
-- virtualization/: packages that are fetched, cached and loaded piece by piece.
pub mod Fetcher
pub mod Layers
pub mod Linker
pub mod Loader
pub mod Mount
pub mod Registry
