-- ===== src/Store/Quiet.antt =====
-- Calls on a connection that does not fail.
use one_issuer.Base.{ℕ, ◌≡◌, refl, true, false, List, [], ◌∷◌, ◌==◌, arith, all, any}
use one_issuer.Errors.{Result, ok}
use one_issuer.Text.{Bytes, mem}
use one_issuer.Text.Sort.{sort_strings}
use one_issuer.Audit.{
  EventType, EventResult, TargetType, Event, valid_request_id, valid_changed_fields, compact,
  valid_event, new_event, event_of,
}
use one_issuer.Store.{
  Db, Conn, returned, Tx, ◌>>=◌, query, select, begin_tx, commit, in_tx_from, in_tx,
}
use one_issuer.Store.Queries.{insert_protocol_audit, audit_clashes, unique_kind}

abbrev pub quiet : Db → Conn
quiet db = record { db = db; faults = [] }

pub >>=-returned :
    {A B : Type 0} (m : Tx A) (f : A → Tx B) (c : Conn) {a : A} {c1 : Conn}
    → m c ≡ returned a c1
    → (m >>= f) c ≡ f a c1
>>=-returned m f c e = rw (e, ◌>>=◌) refl

pub select-quiet :
    {A : Type 0} (f : Db → A) (db : Db) → select f (quiet db) ≡ returned (f db) (quiet db)
unfolding select query
select-quiet f db = refl

pub query-quiet :
    {A : Type 0} (q : Db → Result (A × Db)) (db : Db) {a : A} {left : Db}
    → q db ≡ ok (a, left)
    → query q (quiet db) ≡ returned a (quiet left)
unfolding query
query-quiet q db e = ground arith

-- An event with a target, a request identifier and a time is valid.
pub new_event-eq-ok :
    (type : EventType) (result : EventResult) (actor : ℕ) (target_type : TargetType) (target : ℕ)
    (request_id : Bytes) (changed : List Bytes) (at : ℕ)
    → (target == 0) ≡ false
    → (at == 0) ≡ false
    → valid_request_id request_id ≡ true
    → all (λ field. mem field valid_changed_fields) (compact (sort_strings changed)) ≡ true
    → new_event type result actor target_type target request_id changed at
      ≡ ok (event_of type result actor target_type target request_id changed at)
unfolding new_event valid_event
new_event-eq-ok type result actor target_type target request_id changed at t a r f =
    ground (arith, t, a, r, f)

pub insert_protocol_audit-quiet :
    (type : EventType) (result : EventResult) (actor : ℕ) (target_type : TargetType) (target : ℕ)
    (request_id : Bytes) (changed : List Bytes) (at : ℕ) (db : Db) (event : Event)
    → new_event type result actor target_type target request_id changed at ≡ ok event
    → any (audit_clashes event) db.audits ≡ false
    → insert_protocol_audit type result actor target_type target request_id changed at (quiet db)
      ≡ returned tt (quiet (record db { audits = event ∷ db.audits }))
unfolding insert_protocol_audit query
insert_protocol_audit-quiet type result actor target_type target request_id changed at db event e
      fresh =
    rw (e, fresh) refl

-- An event that no unique index covers clashes with none.
pub any-audit_clashes :
    (event : Event) (events : List Event)
    → unique_kind event ≡ 0
    → any (audit_clashes event) events ≡ false
any-audit_clashes event [] h = refl
any-audit_clashes event (e ∷ events) h = ground (arith, any-audit_clashes event events h)

-- Without faults, the first attempt that returns is committed.
pub in_tx-quiet :
    {A : Type 0} (others : ℕ → Db → Db) (operation : ℕ → Tx A) (db left : Db) (a : A)
    → operation 0 (quiet (others 0 db)) ≡ returned a (quiet left)
    → in_tx others operation (quiet db) ≡ returned a (quiet left)
unfolding in_tx in_tx_from begin_tx query commit
in_tx-quiet others operation db left a e = rw e refl
