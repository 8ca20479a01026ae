-- ===== src/Exec.antt =====
-- Methods that may fail and that change the state behind them: the state comes back beside an
-- error too, as what was written before the error stays written.
use golibs.Prelude.{Option, none, some, ◌≡◌, ◌⊎◌, inl, inr, refl}
use golibs.Errors.{Error}

pub data Result {ℓ} (A : Type ℓ) : Type ℓ where
  ok : A → Result A
  err : Error → Result A

abbrev pub Exec {ℓ κ} : Type ℓ → Type κ → Type (ℓ ⊔ κ)
Exec S A = S → Result A × S

-- A returned error: nil is `none`.
abbrev pub from_error : Option Error → Result (Unit {0})
from_error none = ok tt
from_error (some e) = err e

module _ {ℓ κ μ} {S : Type ℓ} {A : Type κ} {B : Type μ} where
  -- `if err != nil { return err }`
  abbrev pub continue : Result A × S → (A → Exec S B) → Result B × S
  continue (ok a, s) f = f a s
  continue (err e, s) f = (err e, s)

  infixl 5 ◌>>=◌
  abbrev pub ◌>>=◌ : Exec S A → (A → Exec S B) → Exec S B
  ◌>>=◌ m f s = continue (m s) f

infixl 5 ◌>>◌
abbrev pub ◌>>◌ {ℓ κ} : {S : Type ℓ} {B : Type κ} → Exec S (Unit {0}) → Exec S B → Exec S B
m >> n = m >>= λ _. n

abbrev pub pure {ℓ κ} : {S : Type ℓ} {A : Type κ} → A → Exec S A
pure a s = (ok a, s)

abbrev pub fail {ℓ κ} : {S : Type ℓ} {A : Type κ} → Error → Exec S A
fail e s = (err e, s)

pub Result-cases {ℓ} :
    {A : Type ℓ} (r : Result A) → ((a : A) × (r ≡ ok a)) ⊎ ((e : Error) × (r ≡ err e))
Result-cases (ok a) = inl (a, refl)
Result-cases (err e) = inr (e, refl)

-- `if err != nil { return err }` in front of what is done otherwise.
abbrev pub refuse {ℓ κ} : {S : Type ℓ} {A : Type κ} → Option Error → Exec S A → Exec S A
refuse none m s = m s
refuse (some e) m s = (err e, s)
