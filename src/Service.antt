-- ===== src/Service.antt =====
-- internal/token/token.go and lifecycle.go: the token service over its repository.
use one_issuer.Base.{ℕ}
pub mod Claims
pub mod Verify
pub mod Access
pub mod Mint
pub mod Operations
