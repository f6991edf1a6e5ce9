-- ===== src/Tests.antt =====
-- A small cluster to run the model on, and the theorems at concrete inputs.
mod Sample
mod SampleLaws
mod SampleTraces
mod SampleMemory
mod Evaluations
mod Rules
mod Nodes
mod Admissions
mod Systems
mod Startups
mod Memories
mod Selectors
