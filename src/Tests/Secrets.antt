-- ===== src/Tests/Secrets.antt =====
-- Runs of the secrets' grammars and digests, of the deadlines and of the transaction.
use one_issuer.Base.{ℕ, ◌+◌, ◌*◌, ◌<◌, ◌≤◌, ◌≡◌, refl, some, [], arith, zero, suc}
use one_issuer.Errors.{ok, err, authorization_not_found, query_error, serialization_failure}
use one_issuer.Text.{Bytes, codes}
use one_issuer.Text.Base64.{encode, decode, AreBytes, decode-encode}
use one_issuer.Token.{minute, hour, day}
use one_issuer.Token.Secret.{
  hash_refresh_token, hash_code, generate_refresh_token, digest_presented_refresh_token, new_code,
  digest_presented_code, digest-generate, digest-new_code, grammars_disjoint,
}
use one_issuer.Token.Lifetime.{
  refresh_deadlines, replacement_refresh_expiry, refresh_deadlines_bounds,
  replacement_refresh_expiry_bounds,
}
use one_issuer.Store.{Conn, Tx, returned, raised, in_tx}
use one_issuer.Store.Transaction.{Ended, in_tx-Ended}
use one_issuer.Tests.Samples.{digest, repeat, alone, now, store, token_a}

abbrev raw : Bytes
raw = repeat 32 5

raw-AreBytes : AreBytes raw
raw-AreBytes = ground arith

digest-generate_example :
    digest_presented_refresh_token digest (generate_refresh_token digest raw).0
    ≡ ok (generate_refresh_token digest raw).1
digest-generate_example = digest-generate digest raw raw-AreBytes refl

digest-new_code_example :
    digest_presented_code digest (new_code raw) ≡ ok (hash_code digest (new_code raw))
digest-new_code_example = digest-new_code digest raw raw-AreBytes refl

decode-encode_example : decode (encode raw) ≡ some raw
decode-encode_example = decode-encode raw raw-AreBytes

presented : digest_presented_refresh_token digest token_a ≡ ok (hash_refresh_token digest token_a)
unfolding digest_presented_refresh_token decode encode one_issuer.Text.Base64.digit_of
    one_issuer.Text.drop one_issuer.Text.has_prefix one_issuer.Token.Secret.well_formed
presented = refl

grammars_disjoint_example : digest_presented_code digest token_a ≡ err authorization_not_found
grammars_disjoint_example =
    grammars_disjoint digest token_a (hash_refresh_token digest token_a) presented

expires : replacement_refresh_expiry now (30 * day) (now + day) ≡ ok (now + day)
unfolding replacement_refresh_expiry
expires = refl

replacement_refresh_expiry_bounds_example :
    (now < now + day) × (now + day ≤ now + 30 * day) × (now + day ≤ now + day)
replacement_refresh_expiry_bounds_example =
    replacement_refresh_expiry_bounds now (30 * day) (now + day) (now + day) expires

deadlines : refresh_deadlines now (30 * day) (90 * day) ≡ ok (now + 30 * day, now + 90 * day)
unfolding refresh_deadlines
deadlines = refl

refresh_deadlines_bounds_example :
    (now + hour ≤ now + 30 * day)
    × (now + 30 * day ≤ now + 30 * day)
    × (now + 30 * day ≤ now + 90 * day)
    × (now + 90 * day ≤ now + 365 * day)
refresh_deadlines_bounds_example =
    refresh_deadlines_bounds now (30 * day) (90 * day) (now + 30 * day) (now + 90 * day) deadlines

-- The first attempt cannot be serialized, the second is committed.
abbrev conflicted : Conn
conflicted = record { db = store; faults = [] }

abbrev twice : ℕ → Tx ℕ
twice zero c = raised (query_error serialization_failure) c
twice (suc n) c = returned n c

in_tx-Ended_example : Ended alone twice store (in_tx alone twice conflicted)
in_tx-Ended_example = in_tx-Ended alone twice store conflicted refl
