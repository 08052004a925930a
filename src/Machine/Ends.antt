-- ===== src/Machine/Ends.antt =====
-- What holds of the machine where a run returns.
use xaac_thin_client_os.Base.{◌≡◌, refl, String, Option, none, some}
use xaac_thin_client_os.Machine.{
  World, M, Result, ok, err, Exc, ◌>>=◌, pure, raise, try, settle, continue, gets, or_raise,
  read_text, read,
}

-- A run that returns does so in a world of this kind.
pub record Ends {A : Type 0} (P : World → Type 0) (m : M A) : Type 0 where
  pub at : (w : World) (a : A) → (m w).0 ≡ ok a → P (m w).1

-- A run that keeps such a world, however it ends.
pub record Stays {A : Type 0} (P : World → Type 0) (m : M A) : Type 0 where
  pub at : (w : World) → P w → P (m w).1

module _ {A B : Type 0} {P : World → Type 0} where
  continue-Ends :
      (r : Result A) (f : A → M B) (w : World) (b : B)
      → ((a : A) → Ends P (f a))
      → (continue r f w).0 ≡ ok b
      → P (continue r f w).1
  unfolding raise
  continue-Ends (ok a) f w b h e = (h a).at w b e
  continue-Ends (err x) f w b h e = cc

  pub Ends-bind : (m : M A) (f : A → M B) → ((a : A) → Ends P (f a)) → Ends P (m >>= f)
  unfolding ◌>>=◌
  Ends-bind m f h = record { at = λ w b e. continue-Ends (m w).0 f (m w).1 b h e }

  continue-Stays :
      (r : Result A) (f : A → M B) (w : World) (b : B)
      → ((a : A) → r ≡ ok a → P w)
      → ((a : A) → Stays P (f a))
      → (continue r f w).0 ≡ ok b
      → P (continue r f w).1
  unfolding raise
  continue-Stays (ok a) f w b p h e = (h a).at w (p a refl)
  continue-Stays (err x) f w b p h e = cc

  pub Ends-then : (m : M A) (f : A → M B) → Ends P m → ((a : A) → Stays P (f a)) → Ends P (m >>= f)
  unfolding ◌>>=◌
  Ends-then m f p h = record {
    at = λ w b e. continue-Stays (m w).0 f (m w).1 b (λ a q. p.at w a q) h e;
  }

  through :
      (r : Result A) (f : A → M B) (w : World)
      → P w
      → ((a : A) → Stays P (f a))
      → P (continue r f w).1
  unfolding raise
  through (ok a) f w p h = (h a).at w p
  through (err x) f w p h = p

  pub Stays-bind :
      (m : M A) (f : A → M B) → Stays P m → ((a : A) → Stays P (f a)) → Stays P (m >>= f)
  unfolding ◌>>=◌
  Stays-bind m f p h = record { at = λ w q. through (m w).0 f (m w).1 (p.at w q) h }

  settle-Ends :
      (r : Result A) (f : A → M B) (h : Exc → M B) (w : World) (b : B)
      → ((a : A) → r ≡ ok a → P w)
      → ((a : A) → Stays P (f a))
      → ((x : Exc) → Ends P (h x))
      → (settle r f h w).0 ≡ ok b
      → P (settle r f h w).1
  settle-Ends (ok a) f h w b p q s e = (q a).at w (p a refl)
  settle-Ends (err x) f h w b p q s e = (s x).at w b e

  pub Ends-try :
      (m : M A) (f : A → M B) (h : Exc → M B)
      → Ends P m
      → ((a : A) → Stays P (f a))
      → ((x : Exc) → Ends P (h x))
      → Ends P (try m f h)
  unfolding try
  Ends-try m f h p q s = record {
    at = λ w b e. settle-Ends (m w).0 f h (m w).1 b (λ a r. p.at w a r) q s e;
  }

module _ {A : Type 0} {P : World → Type 0} where
  pub Ends-raise : (x : Exc) → Ends P (raise {A = A} x)
  unfolding raise
  Ends-raise x = record { at = λ w a e. cc }

  pub Stays-pure : (a : A) → Stays P (pure a)
  unfolding pure
  Stays-pure a = record { at = λ w p. p }

module _ {A : Type 0} {P : World → Type 0} where
  pub Stays-raise : (x : Exc) → Stays P (raise {A = A} x)
  unfolding raise
  Stays-raise x = record { at = λ w p. p }

  pub Stays-gets : (f : World → A) → Stays P (gets f)
  unfolding gets
  Stays-gets f = record { at = λ w p. p }

  pub Stays-or_raise : (o : Option A) (e : Exc) → Stays P (or_raise o e)
  Stays-or_raise none e = Stays-raise e
  Stays-or_raise (some a) e = Stays-pure a

module _ {A B : Type 0} {P : World → Type 0} where
  settle-Stays :
      (r : Result A) (f : A → M B) (g : Exc → M B) (w : World)
      → P w
      → ((a : A) → Stays P (f a))
      → ((x : Exc) → Stays P (g x))
      → P (settle r f g w).1
  settle-Stays (ok a) f g w p h k = (h a).at w p
  settle-Stays (err x) f g w p h k = (k x).at w p

  pub Stays-try :
      (m : M A) (f : A → M B) (g : Exc → M B)
      → Stays P m
      → ((a : A) → Stays P (f a))
      → ((x : Exc) → Stays P (g x))
      → Stays P (try m f g)
  unfolding try
  Stays-try m f g p h k = record { at = λ w q. settle-Stays (m w).0 f g (m w).1 (p.at w q) h k }

module _ {P : World → Type 0} where
  pub Stays-read_text : (p : String) → Stays P (read_text p)
  unfolding read_text read
  Stays-read_text p = search (Stays-bind, Stays-gets, Stays-or_raise)

pub ruleset stays_rules =
    (Stays-pure, Stays-raise, Stays-gets, Stays-or_raise, Stays-bind, Stays-try, Stays-read_text)
