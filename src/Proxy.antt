-- ===== src/Proxy.antt =====
-- internal/proxy.
pub mod Config
pub mod PackCache
pub mod Samples
pub mod Transfer
pub mod Effects
pub mod Forward
