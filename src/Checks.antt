-- ===== src/Checks.antt =====
-- src/x402_conformance/checks: the result types, the registry, and the checks themselves.
pub mod Base
pub mod Registry
pub mod Negative
pub mod Evaluate
pub mod PathVariants
pub mod Handshake
pub mod PaymentRequired
pub mod Payment
pub mod Facilitator
