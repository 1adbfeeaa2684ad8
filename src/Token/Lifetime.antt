-- ===== src/Token/Lifetime.antt =====
-- RefreshDeadlines and ReplacementRefreshExpiry of internal/token/refresh.go. Durations are not
-- negative: the configuration that makes them is checked against positive bounds.
use one_issuer.Base.{ℕ, ◌+◌, ◌*◌, ◌<◌, ◌≤◌, ◌≡◌, not, ◌||◌, arith, ◌==◌, if◌then◌else◌, ltb}
use one_issuer.Errors.{Result, ok, err, invalid_grant, token_invalid}
use one_issuer.Token.{hour, day}

abbrev pub max_refresh_rolling : ℕ
max_refresh_rolling = 30 * day

abbrev pub max_refresh_absolute : ℕ
max_refresh_absolute = 365 * day

-- The earlier of two times, as `if a.After(b) { a = b }` leaves it in a.
abbrev pub capped : ℕ → ℕ → ℕ
capped a b = if ltb b a then b else a

-- The rolling deadline of generation zero, then the absolute one of the family.
unfoldable pub refresh_deadlines : ℕ → ℕ → ℕ → Result (ℕ × ℕ)
refresh_deadlines issued_at rolling_ttl absolute_ttl =
    if (issued_at == 0)
      || ltb rolling_ttl hour
      || ltb max_refresh_rolling rolling_ttl
      || ltb absolute_ttl (24 * hour)
      || ltb max_refresh_absolute absolute_ttl
      || ltb absolute_ttl rolling_ttl
    then err token_invalid
    else ok (capped (issued_at + rolling_ttl) (issued_at + absolute_ttl), issued_at + absolute_ttl)

unfoldable pub replacement_refresh_expiry : ℕ → ℕ → ℕ → Result ℕ
replacement_refresh_expiry issued_at rolling_ttl absolute =
    if (issued_at == 0)
      || (absolute == 0)
      || not (ltb issued_at absolute)
      || ltb rolling_ttl hour
      || ltb max_refresh_rolling rolling_ttl
    then err invalid_grant
    else ok (capped (issued_at + rolling_ttl) absolute)

-- What the deadlines of a new family promise: the first generation lives at least an hour and at
-- most 30 days, never past the family, and the family at most 365 days.
pub refresh_deadlines_bounds :
    (issued_at rolling_ttl absolute_ttl rolling absolute : ℕ)
    → refresh_deadlines issued_at rolling_ttl absolute_ttl ≡ ok (rolling, absolute)
    → (issued_at + hour ≤ rolling)
      × (rolling ≤ issued_at + 30 * day)
      × (rolling ≤ absolute)
      × (absolute ≤ issued_at + 365 * day)
unfolding refresh_deadlines
refresh_deadlines_bounds issued_at rolling_ttl absolute_ttl rolling absolute h =
    (ground arith, ground arith, ground arith, ground arith)

-- A replacement expires after its issue, at most 30 days later, and never after its family: no
-- rotation can extend the absolute deadline.
pub replacement_refresh_expiry_bounds :
    (issued_at rolling_ttl absolute expires : ℕ)
    → replacement_refresh_expiry issued_at rolling_ttl absolute ≡ ok expires
    → (issued_at < expires) × (expires ≤ issued_at + 30 * day) × (expires ≤ absolute)
unfolding replacement_refresh_expiry
replacement_refresh_expiry_bounds issued_at rolling_ttl absolute expires h =
    (ground arith, ground arith, ground arith)
