-- ===== src/Processor.antt =====
-- The processor of internal/processor: trails, suspects, links, the drone store and the state manager.
pub mod Model
pub mod Trails
pub mod Suspects
pub mod Links
pub mod Drones
pub mod Merge
pub mod State
pub mod Spoof
mod Runs
