-- ===== src/Active.antt =====
-- active.py: payments are sent to an endpoint and its answers are recorded.
pub mod Response
pub mod Choose
pub mod Retry
