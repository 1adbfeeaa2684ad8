-- ===== src/Store/Laws.antt =====
-- What a database call and a transaction can do, without looking into the operation.
use one_issuer.Base.{
  ◌≡◌, refl, ◌⊎◌, inl, inr, Bool, true, false, Option, none, some, arith, Option-cases,
}
use one_issuer.Errors.{Error, Result, ok, err, Result-cases}
use one_issuer.Store.{
  Db, Conn, Outcome, returned, raised, Tx, ◌>>=◌, ◌>>◌, pure, raise_if, or_raise, lift, first_fault,
  query, select,
}

pub Outcome-cases :
    {A : Type 0} (o : Outcome A)
    → ((a : A) × (c : Conn) × (o ≡ returned a c)) ⊎ ((e : Error) × (c : Conn) × (o ≡ raised e c))
Outcome-cases (returned a c) = inl (a, c, refl)
Outcome-cases (raised e c) = inr (e, c, refl)

-- Inversion of a step that returned.
pub >>=-eq-returned :
    {A B : Type 0} (m : Tx A) (f : A → Tx B) (c : Conn) {b : B} {c' : Conn}
    → (m >>= f) c ≡ returned b c'
    → (a : A) × (c1 : Conn) × (m c ≡ returned a c1) × (f a c1 ≡ returned b c')
>>=-eq-returned m f c h = elim (Outcome-cases (m c)) [
  | inl (a, c1, e) ↦ (a, c1, e, rw (e, ◌>>=◌) at h)
  | inr (e, c1, e') ↦ absurd (ground arith)
]

pub query-eq-returned :
    {A : Type 0} (q : Db → Result (A × Db)) (c : Conn) {a : A} {c' : Conn}
    → query q c ≡ returned a c'
    → q c.db ≡ ok (a, c'.db)
unfolding query
query-eq-returned q c h = elim (Option-cases (first_fault c.faults)) [
  | inl e ↦ elim (Result-cases (q c.db)) [
    | inl (r, e') ↦ ground arith
    | inr (bad, e') ↦ absurd (ground arith)
  ]
  | inr (f, e) ↦ absurd (ground arith)
]

-- A read returns what stands in the tables, and leaves them.
pub select-eq-returned :
    {A : Type 0} (f : Db → A) (c : Conn) {a : A} {c' : Conn}
    → select f c ≡ returned a c'
    → (a ≡ f c.db) × (c'.db ≡ c.db)
unfolding select
select-eq-returned f c h = ground (arith, query-eq-returned (λ db. ok (f db, db)) c h)

pub or_raise-eq-returned :
    {A : Type 0} (o : Option A) (e : Error) (c : Conn) {a : A} {c' : Conn}
    → or_raise o e c ≡ returned a c'
    → (o ≡ some a) × (c' ≡ c)
or_raise-eq-returned none e c h = cc
or_raise-eq-returned (some a) e c h = (ground arith, ground arith)

pub raise_if-eq-returned :
    (b : Bool) (e : Error) (c : Conn) {a : Unit {0}} {c' : Conn}
    → raise_if b e c ≡ returned a c'
    → (b ≡ false) × (c' ≡ c)
raise_if-eq-returned true e c h = cc
raise_if-eq-returned false e c h = (refl, ground arith)

pub lift-eq-returned :
    {A : Type 0} (r : Result A) (c : Conn) {a : A} {c' : Conn}
    → lift r c ≡ returned a c'
    → (r ≡ ok a) × (c' ≡ c)
lift-eq-returned (ok a) c h = (ground arith, ground arith)
lift-eq-returned (err e) c h = cc

-- A row that is read, refused if absent, and refused by a test.
pub checked-eq-returned :
    {A : Type 0} (f : Db → Option A) (refused : A → Bool) (e : Error) (c : Conn) {a : A} {c' : Conn}
    → (do row ← select f; r ← or_raise row e; raise_if (refused r) e; pure r) c ≡ returned a c'
    → (f c.db ≡ some a) × (refused a ≡ false) × (c'.db ≡ c.db)
checked-eq-returned f refused e c h =
    let (row, c1, read, h1) = >>=-eq-returned (select f) _ c h in
    let (r, c2, found, h2) = >>=-eq-returned (or_raise row e) _ c1 h1 in
    let (u, c3, passed, h3) = >>=-eq-returned (raise_if (refused r) e) _ c2 h2 in
    let (row_eq, db1) = select-eq-returned f c read in
    let (some_r, same2) = or_raise-eq-returned row e c1 found in
    let (kept, same3) = raise_if-eq-returned (refused r) e c2 passed in
    (ground arith, ground arith, ground arith)

-- What holds of a result, once it is returned, holds of what the caller gets.
pub pure-eq-returned :
    {A : Type 0} (P : A → Conn → Type 0) (a : A) (c : Conn) {b : A} {c' : Conn}
    → pure a c ≡ returned b c'
    → P a c
    → P b c'
pure-eq-returned P a c {b} {c'} h p =
    let same : a ≡ b = ground arith in let last : c ≡ c' = ground arith in rw (← same, ← last) p

-- Inversion of a step that raised.
pub >>=-eq-raised :
    {A B : Type 0} (m : Tx A) (f : A → Tx B) (c : Conn) {e : Error} {c' : Conn}
    → (m >>= f) c ≡ raised e c'
    → (m c ≡ raised e c') ⊎ ((a : A) × (c1 : Conn) × (m c ≡ returned a c1) × (f a c1 ≡ raised e c'))
>>=-eq-raised m f c h = elim (Outcome-cases (m c)) [
  | inl (a, c1, e) ↦ inr (a, c1, e, rw (e, ◌>>=◌) at h)
  | inr (bad, c1, e') ↦ inl (ground arith)
]

pub select-eq-raised :
    {A : Type 0} (f : Db → A) (c : Conn) {e : Error} {c' : Conn}
    → select f c ≡ raised e c'
    → c'.db ≡ c.db
unfolding select query
select-eq-raised f c h = elim (Option-cases (first_fault c.faults)) [
  | inl e ↦ absurd (ground arith)
  | inr (fault, e) ↦ ground arith
]

pub or_raise-eq-raised :
    {A : Type 0} (o : Option A) (bad : Error) (c : Conn) {e : Error} {c' : Conn}
    → or_raise o bad c ≡ raised e c'
    → (c' ≡ c) × (e ≡ bad)
or_raise-eq-raised none bad c h = (ground arith, ground arith)
or_raise-eq-raised (some a) bad c h = cc

pub raise_if-eq-raised :
    (b : Bool) (bad : Error) (c : Conn) {e : Error} {c' : Conn}
    → raise_if b bad c ≡ raised e c'
    → (c' ≡ c) × (e ≡ bad)
raise_if-eq-raised true bad c h = (ground arith, ground arith)
raise_if-eq-raised false bad c h = cc

-- The same, for a proof that goes on with the intermediate result as a variable.
pub >>=-elim :
    {A B : Type 0} {P : Type 0} (m : Tx A) (f : A → Tx B) (c : Conn) {b : B} {c' : Conn}
    → (m >>= f) c ≡ returned b c'
    → ((a : A) (c1 : Conn) → m c ≡ returned a c1 → f a c1 ≡ returned b c' → P)
    → P
>>=-elim m f c h next = let (a, c1, e, h1) = >>=-eq-returned m f c h in next a c1 e h1
