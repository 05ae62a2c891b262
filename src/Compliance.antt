-- ===== src/Compliance.antt =====
-- The compliance commodities of pkg/discovery/worker/compliance.
pub mod Dto
pub mod Processor
pub mod Taints
pub mod Affinity
mod Examples
mod TaintExamples
mod AffinityExamples
mod HelperExamples
