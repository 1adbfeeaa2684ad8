-- ===== src/Oidc.antt =====
-- internal/oidc: the parsers at the protocol boundary. A nil Client registry is not represented.
use one_issuer.Base.{ℕ, Bool, true, false, Option, none, some, List}
use one_issuer.Text.{Bytes}
use one_issuer.Errors.{Result}
use one_issuer.Domain.{Client}
pub mod Checked
pub mod Lists
pub mod Authorize
pub mod Basic
pub mod TokenRequest
pub mod Lifecycle
pub mod LogoutRequest
