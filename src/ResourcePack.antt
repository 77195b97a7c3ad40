-- ===== src/ResourcePack.antt =====
-- internal/resourcepack/decrypt.go: the decryption of resource packs.
pub mod Cfb8
pub mod Paths
pub mod Header
pub mod Outcome
pub mod Entry
pub mod Manifest
pub mod Declare
pub mod Index
pub mod Emit
pub mod Archive
mod Samples
