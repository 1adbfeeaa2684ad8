-- ===== src/Lib.antt =====
-- OneIssuer, an OpenID Connect issuer written in Go: the model of its token lifecycle, of the
-- consent and Scope rules under it and of the requests at its protocol endpoints.
--
-- The program. internal/consent keeps what a User granted a Client and evaluates a request against
-- it. internal/authorization makes Authorization Codes; internal/token makes Access Tokens and
-- Refresh Tokens and keeps their policy; internal/storage/postgres runs each operation as one
-- transaction that locks its rows in the order User, Client, Grant, Family, Generation, Access and
-- checks them again under lock. internal/audit records each step as an event without values.
--
-- The files, and what they model:
-- - Text: Go strings and byte slices as lists of bytes, the order of strings, sort.Strings and
--   sort.SearchStrings, and unpadded base64url as encoding/base64 decodes it (RawURLEncoding,
--   Strict), with its skipping of line breaks.
-- - Errors: the sentinel errors of the packages and the failures that the database reports.
-- - Domain: identity.User, client.Client and consent.Grant, with the fields that the modelled code
--   reads. An identifier is a number, uuid.Nil being 0; a time is a number of microseconds.
-- - Scope: CanonicalScopes, Union, Intersection, Difference and subset of internal/consent/consent.go.
-- - Consent: Service.Evaluate of internal/consent/consent.go, with its repository as a parameter.
-- - Token: the records of internal/token/token.go and internal/token/refresh.go. Token.Secret has
--   the formats and digests of Refresh Tokens and Codes and PKCE (internal/authorization), with
--   SHA-256 as a parameter; Token.Lifetime RefreshDeadlines and ReplacementRefreshExpiry;
--   Token.Narrowing SelectRefreshAccessScopes.
-- - Audit: internal/audit/audit.go, New, Validate and compact.
-- - Store: the tables, one database call (`query`) with the failure that it may report, and inTx of
--   internal/storage/postgres/domain_helpers.go with its one retry. Store.Queries has the statements
--   of internal/storage/postgres/sqlcgen with the unique keys of migrations; Store.Locks the
--   checks under lock; Store.Refresh has ExchangeRefreshToken, Store.Code and
--   Store.Minted ExchangeAuthorizationCode and Store.Revoke RevokeToken of internal/storage/postgres/token.go.
-- - Store.Snapshot: GetRefreshTokenAuthority of internal/storage/postgres/token.go; Introspection:
--   introspectRefresh of internal/token/lifecycle.go.
-- - Store.Snapshot.Access: GetAccessTokenAuthority of internal/storage/postgres/token.go.
-- - Service: internal/token/token.go and lifecycle.go. Service.Claims has the claims, their Scope text
--   and the token identifier; Service.Verify verifyAccessToken, with go-jose as a parameter;
--   Service.Access accessAuthorityMatches, UserInfoForAccessToken, introspectAccess and Introspect;
--   Service.Mint mint and mintRefresh, with the signing keys and the random bytes as parameters;
--   Service.Operations Exchange, Refresh and Revoke.
-- - Text.Split, Text.Utf8, Text.Decimal and Text.Base64.Padded: strings.Split, TrimSpace and Cut,
--   utf8.ValidString, strconv.ParseUint and StdEncoding.Strict; Url: url.ParseQuery and the escapes of
--   net/url.
-- - Oidc: internal/oidc. Oidc.Lists has parseScope, parsePrompt and parseMaxAge; Oidc.Authorize
--   ParseAuthorizationRequest; Oidc.Basic parseStrictBasic; Oidc.TokenRequest ParseTokenRequest with
--   authenticateTokenClient; Oidc.Lifecycle the requests for revocation and introspection;
--   Oidc.LogoutRequest ParseLogoutRequest. Fosite and the Client registry are parameters.
-- - Tests: concrete stores and requests on which the definitions run.
--
-- State. A computation on the database takes a connection (the tables and the failures to come) and
-- returns a result or raises an error with the connection after it. What other transactions commit
-- before the n-th attempt of a transaction is the parameter `others n`; inside an attempt the row
-- locks keep the rows as they are. A failed commit may have been applied (`reply_lost`).
--
-- Bounds. inTx makes at most two attempts, the number that the source fixes, so no recursion of the
-- model needs fuel beyond it. Times and identifiers are natural numbers and do not overflow, but for
-- the product and the times of claims in verifyAccessToken, which wrap around as 64-bit integers do; the
-- generation number is tested against the largest int64 before it is increased, as in the source.
--
-- The tables are lists of rows; the unique keys that the migrations declare are checked by the
-- inserts, and a violation of another constraint is one of the failures that a call may report.
--
-- Not modelled: the HTTP server, templates, process wiring, configuration, metrics, key files, the
-- cryptography of JWTs, the web console and the example client, because they are I/O, glue or calls of
-- cryptographic libraries; login, sessions, the logout service and administration; the issuer
-- check of NewService; of internal/oidc, the building of redirections and the provider metadata. In a
-- claim a time before 1970 counts as 0, which the checks refuse alike.
pub mod Base
pub mod Text
pub mod Errors
pub mod Scope
pub mod Domain
pub mod Consent
pub mod Token
pub mod Audit
pub mod Store
pub mod Introspection
pub mod Url
pub mod Oidc
pub mod Service
pub mod Tests
