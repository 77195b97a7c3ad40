-- ===== src/Capture.antt =====
-- internal/capture: the recorder of a session and the verifier of what it wrote.
pub mod Direction
pub mod Severity
pub mod Schema
pub mod Result
pub mod Disk
pub mod Library
pub mod Recorder
pub mod Verify
pub mod Session
pub mod Samples
