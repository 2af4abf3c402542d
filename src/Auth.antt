-- ===== src/Auth.antt =====
-- pkg/inboundauth: bearer-token verification in front of the agent's endpoints.
pub mod Policy
pub mod Keys
pub mod Verify
pub mod Middleware
