-- ===== src/Tests.antt =====
-- Concrete stores, requests and tokens, on which the definitions of the other modules are run.
pub mod Samples
pub mod Scopes
pub mod Secrets
pub mod Refreshes
pub mod Codes
pub mod Revocations
pub mod Introspections
pub mod Requests
pub mod Clients
pub mod Minting
pub mod Services
pub mod Operations
