-- ===== src/Machine/Yields.antt =====
-- Runs with a property of the effects for each way to end: `Q` where they return, `R` where they
-- raise.
use xaac_thin_client_os.Base.{String, Option, none, some, List, ◌∷◌, ◌≡◌}
use xaac_thin_client_os.Machine.State.{World, Event, Disk, Outcome, refused, completed, ran}
use xaac_thin_client_os.Machine.Commands.{run, answer}
use xaac_thin_client_os.Machine.Monad.{
  M, Exc, Result, ok, err, raise, continue, ◌>>=◌, settle, try, effect, apply_effect,
}
use xaac_thin_client_os.Machine.Keeps.{Keeps}

abbrev pub After :
    {A : Type 0} → (List Event → Type 0) → (List Event → Type 0) → Result A × World → Type 0
After Q R (ok a, w) = Q w.trace
After Q R (err e, w) = R w.trace

pub record Yields {A : Type 0} (P : List Event → Type 0) (m : M A) (Q R : List Event → Type 0)
    : Type 0 where
  pub at : (w : World) → P w.trace → After Q R (m w)

-- One property implies another.
abbrev pub Implies : (List Event → Type 0) → (List Event → Type 0) → Type 0
Implies P Q = (t : List Event) → P t → Q t

module _ {A : Type 0} (P Q R S X : List Event → Type 0) where
  After-same : (r : Result A × World) → P r.1.trace → After P P r
  After-same (ok a, w) h = h
  After-same (err e, w) h = h

  after-either : (r : Result A × World) → Implies Q P → Implies R P → After Q R r → P r.1.trace
  after-either (ok a, w) q r h = q w.trace h
  after-either (err e, w) q r h = r w.trace h

  After-weaken : (r : Result A × World) → Implies Q S → Implies R X → After Q R r → After S X r
  After-weaken (ok a, w) q r h = q w.trace h
  After-weaken (err e, w) q r h = r w.trace h

module _ {A B : Type 0} (Q R S X : List Event → Type 0) where
  After-continue :
      (r : Result A × World) (f : A → M B)
      → ((a : A) → Yields Q (f a) S R)
      → After Q R r
      → After S R (continue r.0 f r.1)
  unfolding raise
  After-continue (ok a, w) f k h = (k a).at w h
  After-continue (err e, w) f k h = h

  After-settle :
      (r : Result A × World) (f : A → M B) (g : Exc → M B)
      → ((a : A) → Yields Q (f a) S R)
      → ((e : Exc) → Yields X (g e) S R)
      → After Q X r
      → After S R (settle r.0 f g r.1)
  After-settle (ok a, w) f g k l h = (k a).at w h
  After-settle (err e, w) f g k l h = (l e).at w h

After-effect :
    (P Q : List Event → Type 0) (o : Option String) (e : Event) (f : Disk → Disk) (w : World)
    → ((t : List Event) → P t → Q (e ∷ t))
    → P w.trace
    → After Q P (apply_effect o e f w)
After-effect P Q none e f w step h = step w.trace h
After-effect P Q (some why) e f w step h = h

module _ {A : Type 0} {P : List Event → Type 0} where
  pub Yields-keeps : (m : M A) → Keeps P m → Yields P m P P
  Yields-keeps m k = record { at = λ w h. After-same P P P P P (m w) (k.at w h) }

module _ {A : Type 0} {P Q R : List Event → Type 0} where
  -- What holds however the run ends.
  pub either_way : (m : M A) → Yields P m Q R → Implies Q P → Implies R P → Keeps P m
  either_way m y q r = record { at = λ w h. after-either P Q R P P (m w) q r (y.at w h) }

module _ {A : Type 0} {P Q R P' Q' R' : List Event → Type 0} where
  pub Yields-weaken :
      (m : M A) → Implies P' P → Implies Q Q' → Implies R R' → Yields P m Q R → Yields P' m Q' R'
  Yields-weaken m p q r y = record {
    at = λ w h. After-weaken P Q R Q' R' (m w) q r (y.at w (p w.trace h));
  }

module _ {A : Type 0} {P Q : List Event → Type 0} where
  pub Yields-raise : (e : Exc) → Yields P (raise {A = A} e) Q P
  unfolding raise
  Yields-raise e = record { at = λ w h. h }

module _ {A B : Type 0} {P Q R S X : List Event → Type 0} where
  pub Yields-try :
      (m : M A) (f : A → M B) (g : Exc → M B)
      → Yields P m Q X
      → ((a : A) → Yields Q (f a) S R)
      → ((e : Exc) → Yields X (g e) S R)
      → Yields P (try m f g) S R
  unfolding try
  Yields-try m f g y k l = record { at = λ w h. After-settle Q R S X (m w) f g k l (y.at w h) }

module _ {A B : Type 0} {P Q R S : List Event → Type 0} where
  pub Yields-bind :
      (m : M A) (f : A → M B)
      → Yields P m Q R
      → ((a : A) → Yields Q (f a) S R)
      → Yields P (m >>= f) S R
  unfolding ◌>>=◌
  Yields-bind m f y k = record { at = λ w h. After-continue Q R S S (m w) f k (y.at w h) }

module _ {P Q : List Event → Type 0} where
  pub Yields-effect :
      (e : Event) (f : Disk → Disk)
      → ((t : List Event) → P t → Q (e ∷ t))
      → Yields P (effect e f) Q P
  unfolding effect
  Yields-effect e f step = record {
    at = λ w h. After-effect P Q (w.host.fault w.time e) e f w step h;
  }

After-answer :
    (P Q : List Event → Type 0) (o : Outcome × Disk) (c : List String) (w : World)
    → ((t : List Event) → P t → Q (ran c ∷ t))
    → P w.trace
    → After Q Q (answer o c w)
After-answer P Q (refused why, d) c w step h = step w.trace h
After-answer P Q (completed code out error, d) c w step h = step w.trace h

module _ {P Q : List Event → Type 0} where
  -- A command is recorded whether or not it could be run.
  pub Yields-run :
      (c : List String) → ((t : List Event) → P t → Q (ran c ∷ t)) → Yields P (run c) Q Q
  unfolding run
  Yields-run c step = record {
    at = λ w h. After-answer P Q (w.host.exec w.time c w.disk) c w step h;
  }

module _ {A B : Type 0} {P S R : List Event → Type 0} where
  -- The first part is known to change nothing and to return `a`.
  pub Yields-known :
      (m : M A) (f : A → M B) (a : A)
      → ((w : World) → m w ≡ (ok a, w))
      → Yields P (f a) S R
      → Yields P (m >>= f) S R
  unfolding ◌>>=◌
  Yields-known m f a known y = record { at = λ w h. rw (known w) (y.at w h) }
