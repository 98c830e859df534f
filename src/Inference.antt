-- ===== src/Inference.antt =====
-- src/inference: the models and their backends, and the scheduler that runs them.
pub mod Types
pub mod Registry
pub mod Metrics
pub mod Mock
pub mod Scheduler
pub mod Yolo
mod Tests
mod YoloTests
