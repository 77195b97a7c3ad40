-- ===== src/Bedrock.antt =====
-- internal/bedrock.
pub mod Failures
pub mod Observer
pub mod Samples
