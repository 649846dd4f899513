-- ===== src/Upstream.antt =====
-- Wrapped upstream credentials (auth/src/upstreamAuth): routes, proofs, envelopes, validation.
pub mod Route
pub mod ProofCache
pub mod Wrap
pub mod Strategy
pub mod Adapters
