-- ===== src/Common/Result.antt =====
-- src/mei/shared/errors.py, and the exceptions of Python that the modelled code raises, as values.
-- The texts of the messages are left out.
use mathlib.Core.Path.{◌≡◌, refl}
use mathlib.Core.Logic.{◌⊎◌, inl, inr}
use mathlib.Core.Option.{Option, none, some}
use mathlib.Core.Bool.{Bool, true, false}

-- One for each class of errors.py with a status of its own, then `ValueError` and the errors of the
-- database, `IntegrityError` and `MultipleResultsFound`.
pub data Error : Type 0 where
  not_found validation conflict unauthorized forbidden : Error
  unsupported_url fetch llm_configuration llm_output value_error integrity multiple_results : Error

-- What a call ends with: an exception, or the value that it returns.
pub data Result {ℓ} (A : Type ℓ) : Type ℓ where
  err : Error → Result A
  ok : A → Result A

-- `if x is None: raise e`
abbrev pub or_raise {ℓ} : {A : Type ℓ} → Option A → Error → Result A
or_raise none e = err e
or_raise (some a) e = ok a

-- `if not test: raise e`
abbrev pub require : Bool → Error → Result (Unit {0})
require false e = err e
require true e = ok tt

module _ {ℓ κ} {A : Type ℓ} {B : Type κ} where
  infixl 5 ◌>>=◌
  abbrev pub ◌>>=◌ : Result A → (A → Result B) → Result B
  err e >>= next = err e
  ok a >>= next = next a

  -- A chain that returns has a first step that returns.
  pub bind-ok :
      (first : Result A) (next : A → Result B) {b : B}
      → (first >>= next) ≡ ok b
      → (a : A) × (first ≡ ok a) × (next a ≡ ok b)
  bind-ok (err e) next p = cc
  bind-ok (ok a) next p = (a, refl, p)

  -- A chain that raises does so in the first step or after it.
  pub bind-err :
      (first : Result A) (next : A → Result B) {e : Error}
      → (first >>= next) ≡ err e
      → (first ≡ err e) ⊎ ((a : A) × (first ≡ ok a) × (next a ≡ err e))
  bind-err (err d) next p = inl (cc)
  bind-err (ok a) next p = inr (a, refl, p)

infixl 5 ◌>>◌
abbrev pub ◌>>◌ {ℓ} : {B : Type ℓ} → Result (Unit {0}) → Result B → Result B
check >> rest = check >>= λ _. rest

module _ {ℓ} {A : Type ℓ} where
  pub Result-cases : (r : Result A) → ((a : A) × (r ≡ ok a)) ⊎ ((e : Error) × (r ≡ err e))
  Result-cases (err e) = inr (e, refl)
  Result-cases (ok a) = inl (a, refl)

  pub ok_inj : {a b : A} → ok a ≡ ok b → a ≡ b
  ok_inj p = cc

  pub or_raise_sound : (o : Option A) (e : Error) (a : A) → or_raise o e ≡ ok a → o ≡ some a
  or_raise_sound none e a p = cc
  or_raise_sound (some b) e a p = cc

pub require_sound : (test : Bool) (e : Error) {u : Unit {0}} → require test e ≡ ok u → test ≡ true
require_sound false e p = cc
require_sound true e p = refl
