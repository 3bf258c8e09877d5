-- ===== src/Tests.antt =====
-- Runs of the models on concrete inputs, and the theorems at such inputs, by the files they model.
mod Safety
mod Report
mod Diff
mod Active
mod Checks
mod Paths
mod Runner
mod Payments
mod Jp402
mod Scan
mod Challenge
mod Facilitator
mod Settlement
