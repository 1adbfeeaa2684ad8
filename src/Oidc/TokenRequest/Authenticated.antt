-- ===== src/Oidc/TokenRequest/Authenticated.antt =====
-- Who made a request that the token endpoints of internal/oidc accept.
