-- ===== src/Configuration/Gives.antt =====
-- What holds of a value that a validation accepts, one rule for each way to build a validation.
use xaac_thin_client_os.Base.{Bool, true, false, String, ◌≡◌, refl, ap, subst}
use xaac_thin_client_os.Configuration.Validation.{
  Validated, valid, invalid, ConfigurationError, reject_if, ◌>>=◌,
}

-- Where the validation accepts a value, the value is of this kind.
pub record Gives {A : Type 0} (P : A → Type 0) (m : Validated A) : Type 0 where
  pub at : (a : A) → m ≡ valid a → P a

module _ {A : Type 0} where
  abbrev value_or : A → Validated A → A
  value_or b (valid a) = a
  value_or b (invalid e) = b

module _ {A : Type 0} {P : A → Type 0} where
  pub Gives-valid : (a : A) → P a → Gives P (valid a)
  Gives-valid a p = record { at = λ b e. subst P (ap (value_or a) e) p }

  pub Gives-invalid : (e : ConfigurationError) → Gives P (invalid e)
  Gives-invalid e = record { at = λ b q. cc }

module _ {A B : Type 0} {P : B → Type 0} where
  pub Gives-bind :
      {Q : A → Type 0} (m : Validated A) (f : A → Validated B)
      → Gives Q m
      → ((a : A) → Q a → Gives P (f a))
      → Gives P (m >>= f)
  unfolding ◌>>=◌
  Gives-bind (valid a) f q h = h a (q.at a refl)
  Gives-bind (invalid e) f q h = Gives-invalid e

  pub Gives-then :
      (m : Validated A) (f : A → Validated B) → ((a : A) → Gives P (f a)) → Gives P (m >>= f)
  unfolding ◌>>=◌
  Gives-then (valid a) f h = h a
  Gives-then (invalid e) f h = Gives-invalid e

module _ {B : Type 0} {P : B → Type 0} where
  pub Gives-checked :
      (c : Bool) (why : String) (f : Unit {0} → Validated B)
      → (c ≡ false → Gives P (f tt))
      → Gives P (reject_if c why >>= f)
  unfolding ◌>>=◌
  Gives-checked true why f h = Gives-invalid _
  Gives-checked false why f h = h refl
