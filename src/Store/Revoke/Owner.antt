-- ===== src/Store/Revoke/Owner.antt =====
-- A Client revokes only what is its own.
use one_issuer.Base.{
  ℕ, suc, ◌≡◌, refl, sym, subst, ◌∙◌, ◌⊎◌, inl, inr, Bool, true, false, ◌||◌, Option, none, some,
  ◌==◌, arith, find, find_sound, ==_iff, length, Bool-cases, ap₂, none_of_not_some,
}
use one_issuer.Text.{str_eq}
use one_issuer.Token.{RefreshFamily, RefreshGeneration, AccessMetadata}
use one_issuer.Store.{Db, Conn, returned, Tx, in_tx}
use one_issuer.Store.Laws.{>>=-elim, select-eq-returned}
use one_issuer.Store.Transaction.{start_db, Ended, in_tx-Ended}
use one_issuer.Store.Queries.{
  lock_user_by_id, find_client, lock_consent_grant_by_user_client, lock_refresh_token_family_by_id,
  lock_refresh_token_by_id, lock_access_token_by_id, get_access_token_by_jti_hash,
  get_refresh_token_by_hash,
}
use one_issuer.Store.Locks.Sound.{find_client-id}
use one_issuer.Store.Revoke.{
  RevocationLookup, with_row, lock_whole_client, access_refused, with_family_of,
  revoke_access_writes, revoke_access_tx, revoke_refresh_tx, revoke_refresh_hash, revoke_token,
  revoke_access_candidate, revoke_by_hash,
}
use one_issuer.Store.Revoke.Steps.{
  with_row-elim, user-Reads, client-Reads, grant-Reads, family-Reads, generation-Reads,
  access-Reads,
}
use one_issuer.Store.Revoke.Writes.{AccessRevoked, FamilyRevoked, access-writes, family-writes}

-- An attempt that changes nothing, or revokes the Access Token.
revoke_access_tx-eq-returned :
    (lookup : RevocationLookup) (candidate : AccessMetadata) (attempt : ℕ) (c c' : Conn)
    → revoke_access_tx lookup candidate attempt c ≡ returned tt c'
    → (c'.db ≡ c.db) ⊎ AccessRevoked c.db c'.db lookup
unfolding revoke_access_tx
revoke_access_tx-eq-returned lookup candidate attempt c c' h =
    with_row-elim _ (lock_user_by_id candidate.user_id) _ _ c (user-Reads candidate.user_id) h inl
      (λ user c1 e1 _ _ h1.
        with_row-elim _ (lock_whole_client candidate.client_id) _ _ c1
          (client-Reads candidate.client_id) h1 (λ e. inl (e ∙ e1))
          (λ client c2 e2 _ _ h2.
            with_row-elim _
              (lock_consent_grant_by_user_client candidate.user_id candidate.client_id) _ _ c2
              (grant-Reads candidate.user_id candidate.client_id) h2 (λ e. inl (e ∙ e2 ∙ e1))
              (λ grant c3 e3 _ _ h3. of_family candidate.refresh_family_id c3 (e3 ∙ e2 ∙ e1) h3)))
  where
    at_token :
        (c3 : Conn)
        → c3.db ≡ c.db
        → with_row
            (lock_access_token_by_id candidate.id)
            (access_refused lookup)
            (revoke_access_writes lookup)
            c3
          ≡ returned tt c'
        → (c'.db ≡ c.db) ⊎ AccessRevoked c.db c'.db lookup
    at_token c3 e3 h3 =
        with_row-elim _ (lock_access_token_by_id candidate.id) _ _ c3 (access-Reads candidate.id) h3
          (λ e. inl (e ∙ e3))
          (λ metadata c4 e4 found passed h4.
            let id =
              (==_iff metadata.id candidate.id).0
                (find_sound (λ r. r.id == candidate.id) c3.db.accesses found) in
            inr (
              access-writes lookup metadata c.db c4 c' (e4 ∙ e3)
                (ap₂ (λ i db. find (λ r. r.id == i) db.accesses) id (sym e3) ∙ found) passed h4))

    of_family :
        (family : Option ℕ) (c3 : Conn)
        → c3.db ≡ c.db
        → with_family_of candidate lookup.now family
            (with_row
              (lock_access_token_by_id candidate.id)
              (access_refused lookup)
              (revoke_access_writes lookup))
            c3
          ≡ returned tt c'
        → (c'.db ≡ c.db) ⊎ AccessRevoked c.db c'.db lookup
    of_family none c3 e3 h3 = at_token c3 e3 h3
    of_family (some id) c3 e3 h3 =
        with_row-elim _ (lock_refresh_token_family_by_id id) _ _ c3 (family-Reads id) h3
          (λ e. inl (e ∙ e3)) (λ family c4 e4 _ _ h4. at_token c4 (e4 ∙ e3) h4)

-- An attempt that changes nothing, or revokes the family.
revoke_refresh_tx-eq-returned :
    (lookup : RevocationLookup) (candidate : RefreshGeneration) (candidate_family : RefreshFamily)
    (attempt : ℕ) (c c' : Conn)
    → revoke_refresh_tx lookup candidate candidate_family attempt c ≡ returned tt c'
    → (c'.db ≡ c.db) ⊎ FamilyRevoked c.db c'.db lookup
unfolding revoke_refresh_tx
revoke_refresh_tx-eq-returned lookup candidate candidate_family attempt c c' h =
    with_row-elim _ (lock_user_by_id candidate_family.user_id) _ _ c
      (user-Reads candidate_family.user_id) h inl
      (λ user c1 e1 _ _ h1.
        with_row-elim _ (lock_whole_client candidate_family.client_id) _ _ c1
          (client-Reads candidate_family.client_id) h1 (λ e. inl (e ∙ e1))
          (λ client c2 e2 client_found client_same h2.
            with_row-elim _
              (lock_consent_grant_by_user_client candidate_family.user_id
                candidate_family.client_id)
              _ _ c2 (grant-Reads candidate_family.user_id candidate_family.client_id) h2
              (λ e. inl (e ∙ e2 ∙ e1))
              (λ grant c3 e3 _ _ h3.
                with_row-elim _ (lock_refresh_token_family_by_id candidate.family_id) _ _ c3
                  (family-Reads candidate.family_id) h3 (λ e. inl (e ∙ e3 ∙ e2 ∙ e1))
                  (λ family c4 e4 family_found family_kept h4.
                    with_row-elim _ (lock_refresh_token_by_id candidate.id) _ _ c4
                      (generation-Reads candidate.id) h4 (λ e. inl (e ∙ e4 ∙ e3 ∙ e2 ∙ e1))
                      (λ presented c5 e5 presented_found passed h5.
                        let client_id =
                          find_client-id c1.db candidate_family.client_id client_found in
                        let family_id = (==_iff family.id candidate.family_id).0 (
                          find_sound (λ r. r.id == candidate.family_id) c3.db.families
                            family_found) in
                        let presented_id = (==_iff presented.id candidate.id).0 (
                          find_sound (λ r. r.id == candidate.id) c4.db.generations
                            presented_found) in
                        let at3 = e3 ∙ e2 ∙ e1 in
                        let at4 = e4 ∙ at3 in
                        inr (
                          family-writes lookup client family presented c.db c5 c' (e5 ∙ at4)
                            (ap₂ find_client client_id (sym e1) ∙ client_found) (ground arith)
                            (ap₂ (λ i db. find (λ r. r.id == i) db.families) family_id (sym at3)
                              ∙ family_found)
                            (ground (arith, family_kept))
                            (none_of_not_some family.revoked_at (ground (arith, family_kept)))
                            (ground (arith, family_kept))
                            (ap₂ (λ i db. find (λ r. r.id == i) db.generations) presented_id
                                (sym at4)
                              ∙ presented_found)
                            passed h5))))))

-- An attempt found these tables and left those: as they were, or with a token revoked that is the
-- Client's own, was live, and has the hash that was presented.
abbrev pub OwnRevocation : RevocationLookup → Db → Db → Type 0
OwnRevocation lookup db left =
    (left ≡ db) ⊎ (AccessRevoked db left lookup ⊎ FamilyRevoked db left lookup)

module _ (others : ℕ → Db → Db) where
  abbrev Revoked : RevocationLookup → Db → Db → Type 0
  Revoked lookup db left = (n : ℕ) × OwnRevocation lookup (start_db others db n) left

  in_tx-Revoked :
      (lookup : RevocationLookup) (operation : ℕ → Tx (Unit {0})) (db : Db) (c c' : Conn)
      → c.db ≡ db
      → ((n : ℕ) (before after : Conn)
          → operation n before ≡ returned tt after
          → OwnRevocation lookup before.db after.db)
      → in_tx others operation c ≡ returned tt c'
      → Revoked lookup db c'.db
  in_tx-Revoked lookup operation db c c' start each h =
      let (n, ran) =
        subst (λ o. Ended others operation db o) h (in_tx-Ended others operation db c start) in
      (
        suc n,
        subst (λ left. OwnRevocation lookup (start_db others db (suc n)) left) (sym ran.left_eq)
            (subst (λ d. OwnRevocation lookup d ran.after.db) ran.found
              (each n ran.before ran.after ran.result)),
      )

  refresh_hash-Revoked :
      (lookup : RevocationLookup) (db : Db) (c c' : Conn)
      → c.db ≡ db
      → revoke_refresh_hash others lookup c ≡ returned tt c'
      → Revoked lookup db c'.db
  unfolding revoke_refresh_hash get_refresh_token_by_hash
  refresh_hash-Revoked lookup db c c' start h =
      elim (Bool-cases (length lookup.refresh_token_hash == 32)) [
        | inr short ↦ (0, inl (ground (arith, short)))
        | inl sized ↦
            with_row-elim
              (λ db. find (λ r. str_eq r.token_hash lookup.refresh_token_hash) db.generations)
              (get_refresh_token_by_hash lookup.refresh_token_hash) (λ _. false) _ c
              (λ c c' a h. select-eq-returned _ c h) (rw sized at h) (λ e. (0, inl (e ∙ start)))
              (λ candidate c1 e1 _ _ h1.
                with_row-elim _ (lock_refresh_token_family_by_id candidate.family_id) (λ _. false) _
                  c1 (family-Reads candidate.family_id) h1 (λ e. (0, inl (e ∙ e1 ∙ start)))
                  (λ family c2 e2 _ _ h2.
                    in_tx-Revoked lookup (revoke_refresh_tx lookup candidate family) db c2 c'
                      (e2 ∙ e1 ∙ start)
                      (λ n before after r.
                        elim (revoke_refresh_tx-eq-returned lookup candidate family n before after
                          r) [ inl e ↦ inl e | inr x ↦ inr (inr x) ])
                      h2))
      ]

  -- If RevokeToken reports no error, then it left the tables as its attempt found them, or, on the
  -- tables that its committed attempt found, it did one of two things, and added the event that
  -- records it, and nothing else. Either it revoked one stored Access Token, of the Client that
  -- asked, that was not revoked and not expired and whose identifier has the hash that was
  -- presented; or it revoked one stored family, of the Client that asked, that was not revoked and
  -- not expired and has a stored generation with the hash that was presented, and with it the
  -- family's live Access Tokens.
  pub revoke_token-OwnRevocation :
      (lookup : RevocationLookup) (c c' : Conn)
      → revoke_token others lookup c ≡ returned tt c'
      → (n : ℕ) × OwnRevocation lookup (start_db others c.db n) c'.db
  unfolding revoke_token get_access_token_by_jti_hash
  revoke_token-OwnRevocation lookup c c' h =
      elim (Bool-cases ((lookup.client.id == 0) || (lookup.now == 0))) [
        | inl unset ↦ (0, inl (ground (arith, unset)))
        | inr set ↦ by_hash (length lookup.access_jti_hash == 32) (rw set at h)
      ]
    where
      candidate :
          (row : Option AccessMetadata) (c1 : Conn)
          → c1.db ≡ c.db
          → revoke_access_candidate others lookup row c1 ≡ returned tt c'
          → Revoked lookup c.db c'.db
      candidate none c1 e1 h1 = refresh_hash-Revoked lookup c.db c1 c' e1 h1
      candidate (some metadata) c1 e1 h1 =
          in_tx-Revoked lookup (revoke_access_tx lookup metadata) c.db c1 c' e1
            (λ n before after r.
              elim (revoke_access_tx-eq-returned lookup metadata n before after r) [
                | inl e ↦ inl e
                | inr x ↦ inr (inl x)
              ])
            h1

      by_hash :
          (sized : Bool)
          → revoke_by_hash others lookup sized c ≡ returned tt c'
          → Revoked lookup c.db c'.db
      by_hash false h1 = refresh_hash-Revoked lookup c.db c c' refl h1
      by_hash true h1 =
          >>=-elim (get_access_token_by_jti_hash lookup.access_jti_hash) _ c h1
            (λ row c1 q h2. candidate row c1 (select-eq-returned _ c q).1 h2)
