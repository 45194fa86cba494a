-- ===== src/Intel.antt =====
-- Decoders of broadcast drone identifications: internal/intel.
pub mod Bits
pub mod RemoteId
pub mod Dji
pub mod Oui
mod Runs
