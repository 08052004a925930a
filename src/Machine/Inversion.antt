-- ===== src/Machine/Inversion.antt =====
-- What a run that returned has gone through.
use xaac_thin_client_os.Base.{Bool, true, false, ◌≡◌, refl}
use xaac_thin_client_os.Machine.{
  World, M, Result, ok, err, Exc, ◌>>=◌, pure, raise, continue, raise_if,
}

module _ {A B : Type 0} where
  continue-ok :
      (r : Result A) (f : A → M B) (w : World) (b : B)
      → (continue r f w).0 ≡ ok b
      → (a : A) × ((r ≡ ok a) × ((f a w).0 ≡ ok b))
  unfolding raise
  continue-ok (ok a) f w b e = (a, (refl, e))
  continue-ok (err x) f w b e = cc

  pub bind-ok :
      (m : M A) (f : A → M B) (w : World) (b : B)
      → ((m >>= f) w).0 ≡ ok b
      → (a : A) × (((m w).0 ≡ ok a) × ((f a (m w).1).0 ≡ ok b))
  unfolding ◌>>=◌
  bind-ok m f w b e = continue-ok (m w).0 f (m w).1 b e

pub passed :
    {B : Type 0} (c : Bool) (x : Exc) (f : Unit {0} → M B) (w : World) (b : B)
    → ((raise_if c x >>= f) w).0 ≡ ok b
    → (c ≡ false) × ((f tt w).0 ≡ ok b)
unfolding ◌>>=◌ raise pure
passed true x f w b e = cc
passed false x f w b e = (refl, e)

pub known :
    {A B : Type 0} (m : M A) (f : A → M B) (w : World) (a : A) (b : B)
    → m w ≡ (ok a, w)
    → ((m >>= f) w).0 ≡ ok b
    → (f a w).0 ≡ ok b
unfolding ◌>>=◌
known m f w a b h e = rw h at e

pub pure-ok : {A : Type 0} (x a : A) (w : World) → (pure x w).0 ≡ ok a → x ≡ a
unfolding pure
pure-ok x a w e = cc
