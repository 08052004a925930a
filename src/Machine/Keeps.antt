-- ===== src/Machine/Keeps.antt =====
-- Properties of the record of effects that a run keeps, one rule for each way to build a run.
use xaac_thin_client_os.Base.{
  ℕ, Bool, true, false, String, Option, none, some, List, [], ◌∷◌, if◌then◌else◌,
}
use xaac_thin_client_os.Machine.State.{World, Host, Event, ran, Disk, Outcome, refused, completed}
use xaac_thin_client_os.Machine.Monad.{continue, settle, apply_effect}
use xaac_thin_client_os.Machine.Monad.{
  M, Exc, runtime_error, failure, handled, catch, Result, ok, err, pure, raise, gets, or_raise,
  ◌>>=◌, try, raise_if, when, and_then, for_each, traverse, fold, effect, fresh, ask,
}
use xaac_thin_client_os.Machine.Commands.{run, answer}

-- Whether the run returns or raises, the property passes from the effects before it to those
-- after it.
pub record Keeps {A : Type 0} (P : List Event → Type 0) (m : M A) : Type 0 where
  pub at : (w : World) → P w.trace → P (m w).1.trace

module _ {A : Type 0} {P : List Event → Type 0} where
  pub Keeps-pure : (a : A) → Keeps P (pure a)
  unfolding pure
  Keeps-pure a = record { at = λ w h. h }

  pub Keeps-raise : (e : Exc) → Keeps P (raise {A = A} e)
  unfolding raise
  Keeps-raise e = record { at = λ w h. h }

  pub Keeps-gets : (f : World → A) → Keeps P (gets f)
  unfolding gets
  Keeps-gets f = record { at = λ w h. h }

  pub Keeps-or_raise : (o : Option A) (e : Exc) → Keeps P (or_raise o e)
  Keeps-or_raise none e = Keeps-raise e
  Keeps-or_raise (some a) e = Keeps-pure a

  pub Keeps-if : (b : Bool) (m n : M A) → Keeps P m → Keeps P n → Keeps P (if b then m else n)
  Keeps-if true m n km kn = km
  Keeps-if false m n km kn = kn

  pub Keeps-elim :
      (b : Bool) (m n : M A) → Keeps P m → Keeps P n → Keeps P (elim b [ true ↦ m | false ↦ n ])
  Keeps-elim true m n km kn = km
  Keeps-elim false m n km kn = kn

module _ {A B : Type 0} {P : List Event → Type 0} where
  continue-keeps :
      (r : Result A) (f : A → M B) (w : World)
      → ((a : A) → Keeps P (f a))
      → P w.trace
      → P (continue r f w).1.trace
  unfolding raise
  continue-keeps (ok a) f w kf h = (kf a).at w h
  continue-keeps (err e) f w kf h = h

  pub Keeps-bind :
      (m : M A) (f : A → M B) → Keeps P m → ((a : A) → Keeps P (f a)) → Keeps P (m >>= f)
  unfolding ◌>>=◌
  Keeps-bind m f km kf = record { at = λ w h. continue-keeps (m w).0 f (m w).1 kf (km.at w h) }

  settle-keeps :
      (r : Result A) (f : A → M B) (g : Exc → M B) (w : World)
      → ((a : A) → Keeps P (f a))
      → ((e : Exc) → Keeps P (g e))
      → P w.trace
      → P (settle r f g w).1.trace
  settle-keeps (ok a) f g w kf kg h = (kf a).at w h
  settle-keeps (err e) f g w kf kg h = (kg e).at w h

  pub Keeps-try :
      (m : M A) (f : A → M B) (g : Exc → M B)
      → Keeps P m
      → ((a : A) → Keeps P (f a))
      → ((e : Exc) → Keeps P (g e))
      → Keeps P (try m f g)
  unfolding try
  Keeps-try m f g km kf kg = record {
    at = λ w h. settle-keeps (m w).0 f g (m w).1 kf kg (km.at w h);
  }

module _ {A : Type 0} {P : List Event → Type 0} where
  handled-Keeps :
      (h : String → M A) (e : Exc) → ((s : String) → Keeps P (h s)) → Keeps P (handled h e)
  handled-Keeps h (runtime_error s) k = k s
  handled-Keeps h (failure s) k = Keeps-raise (failure s)

  pub Keeps-catch :
      (m : M A) (h : String → M A)
      → Keeps P m
      → ((s : String) → Keeps P (h s))
      → Keeps P (catch m h)
  unfolding catch
  Keeps-catch m h km kh =
      Keeps-try m pure (handled h) km (λ a. Keeps-pure a) (λ e. handled-Keeps h e kh)

module _ {P : List Event → Type 0} where
  pub Keeps-raise_if : (b : Bool) (e : Exc) → Keeps P (raise_if b e)
  Keeps-raise_if true e = Keeps-raise e
  Keeps-raise_if false e = Keeps-pure tt

  pub Keeps-when : (b : Bool) (m : M (Unit {0})) → Keeps P m → Keeps P (when b m)
  Keeps-when true m km = km
  Keeps-when false m km = Keeps-pure tt

  pub Keeps-and_then : (b : Bool) (m : M Bool) → Keeps P m → Keeps P (and_then b m)
  Keeps-and_then true m km = km
  Keeps-and_then false m km = Keeps-pure false

  pub Keeps-fresh : (f : Host → ℕ → String) → Keeps P (fresh f)
  unfolding fresh
  Keeps-fresh f = record { at = λ w h. h }

  pub Keeps-ask : (f : Host → ℕ → Bool) → Keeps P (ask f)
  unfolding ask
  Keeps-ask f = record { at = λ w h. h }

  apply_effect-keeps :
      (o : Option String) (e : Event) (f : Disk → Disk) (w : World)
      → ((t : List Event) → P t → P (e ∷ t))
      → P w.trace
      → P (apply_effect o e f w).1.trace
  apply_effect-keeps none e f w step h = step w.trace h
  apply_effect-keeps (some why) e f w step h = h

  -- An effect that the operating system refuses leaves no mark.
  pub Keeps-effect :
      (e : Event) (f : Disk → Disk) → ((t : List Event) → P t → P (e ∷ t)) → Keeps P (effect e f)
  unfolding effect
  Keeps-effect e f step = record {
    at = λ w h. apply_effect-keeps (w.host.fault w.time e) e f w step h;
  }

  answer-keeps :
      (o : Outcome × Disk) (c : List String) (w : World)
      → ((t : List Event) → P t → P (ran c ∷ t))
      → P w.trace
      → P (answer o c w).1.trace
  answer-keeps (refused why, d) c w step h = step w.trace h
  answer-keeps (completed code out error, d) c w step h = step w.trace h

  pub Keeps-run : (c : List String) → ((t : List Event) → P t → P (ran c ∷ t)) → Keeps P (run c)
  unfolding run
  Keeps-run c step = record { at = λ w h. answer-keeps (w.host.exec w.time c w.disk) c w step h }

module _ {A : Type 0} {P : List Event → Type 0} where
  pub Keeps-for_each :
      (xs : List A) (body : A → M (Unit {0}))
      → ((a : A) → Keeps P (body a))
      → Keeps P (for_each xs body)
  unfolding for_each
  Keeps-for_each [] body k = Keeps-pure tt
  Keeps-for_each (x ∷ xs) body k =
      Keeps-bind (body x) (λ _. for_each xs body) (k x) (λ _. Keeps-for_each xs body k)

module _ {A B : Type 0} {P : List Event → Type 0} where
  pub Keeps-traverse :
      (xs : List A) (body : A → M B) → ((a : A) → Keeps P (body a)) → Keeps P (traverse xs body)
  unfolding traverse
  Keeps-traverse [] body k = Keeps-pure []
  Keeps-traverse (x ∷ xs) body k =
      Keeps-bind (body x) _ (k x) (λ b.
        Keeps-bind (traverse xs body) _ (Keeps-traverse xs body k) (λ bs. Keeps-pure (b ∷ bs)))

  pub Keeps-fold :
      (acc : B) (xs : List A) (body : B → A → M B)
      → ((b : B) (a : A) → Keeps P (body b a))
      → Keeps P (fold acc xs body)
  unfolding fold
  Keeps-fold acc [] body k = Keeps-pure acc
  Keeps-fold acc (x ∷ xs) body k = Keeps-bind (body acc x) _ (k acc x) (λ b. Keeps-fold b xs body k)

pub ruleset keeps_rules = (
  Keeps-pure, Keeps-raise, Keeps-gets, Keeps-or_raise, Keeps-if, Keeps-bind, Keeps-try, Keeps-catch,
  Keeps-raise_if, Keeps-when, Keeps-and_then, Keeps-fresh, Keeps-ask, Keeps-for_each,
  Keeps-traverse, Keeps-fold,
)
