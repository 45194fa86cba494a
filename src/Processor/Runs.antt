-- ===== src/Processor/Runs.antt =====
-- Concrete runs of internal/processor.
mod TrailRuns
mod SuspectRuns
mod LinkRuns
mod StoreRuns
mod StateRuns
mod SpoofRuns
