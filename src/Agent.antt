-- ===== src/Agent.antt =====
-- cmd/agent: the pipeline from the collector to the platform.
pub mod Sink
pub mod Pipeline
pub mod Start
