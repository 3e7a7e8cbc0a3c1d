-- ===== src/Capture.antt =====
-- internal/capture: exchanges and the pipeline that records them.
pub mod Model
pub mod Transition
pub mod Body
pub mod Pipeline
pub mod Handler
pub mod Tests
