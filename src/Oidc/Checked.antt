-- ===== src/Oidc/Checked.antt =====
-- `(value, error)` with the error type of one parser.
use one_issuer.Base.{◌≡◌, refl, ◌⊎◌, inl, inr, Bool, true, false, Option, none, some}

pub data Checked (E A : Type 0) : Type 0 where
  rejected : E → Checked E A
  accepted : A → Checked E A

infixl 5 ◌>>=◌ ◌>>◌
-- `value, err := m; if err != nil { return err }`
abbrev pub ◌>>=◌ : {E A B : Type 0} → Checked E A → (A → Checked E B) → Checked E B
rejected e >>= f = rejected e
accepted a >>= f = f a

abbrev pub ◌>>◌ : {E B : Type 0} → Checked E (Unit {0}) → Checked E B → Checked E B
m >> rest = m >>= λ _. rest

-- `if condition { return err }`
abbrev pub reject_when : {E : Type 0} → Bool → E → Checked E (Unit {0})
reject_when true e = rejected e
reject_when false e = accepted tt

-- `value, ok := f(…); if !ok { return err }`
abbrev pub or_reject : {E A : Type 0} → Option A → E → Checked E A
or_reject none e = rejected e
or_reject (some a) e = accepted a

pub Checked-cases :
    {E A : Type 0} (r : Checked E A) → ((a : A) × (r ≡ accepted a)) ⊎ ((e : E) × (r ≡ rejected e))
Checked-cases (accepted a) = inl (a, refl)
Checked-cases (rejected e) = inr (e, refl)

-- A check that was passed.
pub reject_when-passed :
    {E B : Type 0} (b : Bool) (e : E) (rest : Checked E B) {r : B}
    → (reject_when b e >> rest) ≡ accepted r
    → (b ≡ false) × (rest ≡ accepted r)
reject_when-passed true e rest h = cc
reject_when-passed false e rest h = (refl, h)
