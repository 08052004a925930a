-- ===== src/Configuration/Validation.antt =====
-- A value, or the exception that its validation raises, with the constant part of the message.
use xaac_thin_client_os.Base.{Bool, true, false, String, ◌≡◌, refl}

-- `ConfigurationFileError` and `ConfigurationValidationError`
pub data ConfigurationError : Type 0 where
  file_error : String → ConfigurationError
  validation_error : String → ConfigurationError

pub data Validated (A : Type 0) : Type 0 where
  valid : A → Validated A
  invalid : ConfigurationError → Validated A

module _ {A B : Type 0} where
  infixl 5 ◌>>=◌ ◌>>◌
  unfoldable pub ◌>>=◌ : Validated A → (A → Validated B) → Validated B
  valid a >>= f = f a
  invalid e >>= f = invalid e

  abbrev pub ◌>>◌ : Validated A → Validated B → Validated B
  m >> n = m >>= λ _. n

-- `raise ConfigurationValidationError(...)`
abbrev pub reject : {A : Type 0} → String → Validated A
reject why = invalid (validation_error why)

abbrev pub reject_if : Bool → String → Validated (Unit {0})
reject_if true why = reject why
reject_if false why = valid tt

module _ {A B : Type 0} where
  -- What a validation that succeeds has gone through.
  pub bind-valid :
      (m : Validated A) (f : A → Validated B) (b : B)
      → m >>= f ≡ valid b
      → (a : A) × ((m ≡ valid a) × (f a ≡ valid b))
  unfolding ◌>>=◌
  bind-valid (valid a) f b e = (a, (refl, e))
  bind-valid (invalid x) f b e = cc

module _ {B : Type 0} where
  pub passed :
      (c : Bool) (why : String) (f : Unit {0} → Validated B) (b : B)
      → reject_if c why >>= f ≡ valid b
      → (c ≡ false) × (f tt ≡ valid b)
  unfolding ◌>>=◌
  passed true why f b e = cc
  passed false why f b e = (refl, e)
