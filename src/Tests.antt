-- ===== src/Tests.antt =====
-- The theorems at concrete inputs, one module for each component.
mod Grading
mod Sessions
mod Chains
mod Pages
mod Patterns
mod Clusters
mod Machines
mod Configured
mod Environment
mod Discovery
mod Lifecycles
mod Suites
