-- ===== src/Machine/Monad.antt =====
-- A run on the machine that may raise: what was done before a raise stays done.
use xaac_thin_client_os.Base.{Bool, true, false, String, Option, none, some, List, [], ◌∷◌, ℕ, suc}
use xaac_thin_client_os.Machine.State.{World, Host, Event, Disk}

-- `runtime_error` is the runtime's own exception class, with the constant part of its message;
-- `failure` is any other `Exception`.
pub data Exc : Type 0 where
  runtime_error : String → Exc
  failure : String → Exc

-- `str(exc)`
abbrev pub message : Exc → String
message (runtime_error s) = s
message (failure s) = s

pub data Result (A : Type 0) : Type 0 where
  ok : A → Result A
  err : Exc → Result A

abbrev pub M : Type 0 → Type 0
M A = World → Result A × World

module _ {A : Type 0} where
  unfoldable pub pure : A → M A
  pure a w = (ok a, w)

  unfoldable pub raise : Exc → M A
  raise e w = (err e, w)

  -- a look at the machine that changes nothing
  unfoldable pub gets : (World → A) → M A
  gets f w = (ok (f w), w)

  abbrev pub or_raise : Option A → Exc → M A
  or_raise none e = raise e
  or_raise (some a) e = pure a

module _ {A B : Type 0} where
  abbrev pub continue : Result A → (A → M B) → M B
  continue (ok a) f = f a
  continue (err e) f = raise e

  infixl 5 ◌>>=◌ ◌>>◌
  unfoldable pub ◌>>=◌ : M A → (A → M B) → M B
  unfolding raise
  ◌>>=◌ m f w = continue (m w).0 f (m w).1

  abbrev pub ◌>>◌ : M A → M B → M B
  m >> n = m >>= λ _. n

module _ {A B : Type 0} where
  abbrev pub settle : Result A → (A → M B) → (Exc → M B) → M B
  settle (ok a) f h = f a
  settle (err e) f h = h e

  -- `try: a = m` with `else: f(a)` and `except Exception as e: h(e)`
  unfoldable pub try : M A → (A → M B) → (Exc → M B) → M B
  try m f h w = settle (m w).0 f h (m w).1

module _ {A : Type 0} where
  abbrev pub handled : (String → M A) → Exc → M A
  handled h (runtime_error why) = h why
  handled h (failure why) = raise (failure why)

  -- `try: m` with `except` for the runtime's own exception class alone
  unfoldable pub catch : M A → (String → M A) → M A
  unfolding try pure
  catch m h = try m pure (handled h)

-- `if c: raise e`
abbrev pub raise_if : Bool → Exc → M (Unit {0})
raise_if true e = raise e
raise_if false e = pure tt

abbrev pub when : Bool → M (Unit {0}) → M (Unit {0})
when true m = m
when false m = pure tt

-- `a and b`, where `b` is a call
abbrev pub and_then : Bool → M Bool → M Bool
and_then true m = m
and_then false m = pure false

module _ {A : Type 0} where
  -- `for a in xs: body(a)`
  unfoldable pub for_each : List A → (A → M (Unit {0})) → M (Unit {0})
  unfolding pure ◌>>=◌
  for_each [] body = pure tt
  for_each (a ∷ xs) body = body a >> for_each xs body

module _ {A B : Type 0} where
  -- `for a in xs: out.append(body(a))`
  unfoldable pub traverse : List A → (A → M B) → M (List B)
  unfolding pure ◌>>=◌
  traverse [] body = pure []
  traverse (a ∷ xs) body = body a >>= λ b. traverse xs body >>= λ bs. pure (b ∷ bs)

  -- `for a in xs: acc = body(acc, a)`
  unfoldable pub fold : B → List A → (B → A → M B) → M B
  unfolding pure ◌>>=◌
  fold acc [] body = pure acc
  fold acc (a ∷ xs) body = body acc a >>= λ acc'. fold acc' xs body

abbrev pub apply_effect : Option String → Event → (Disk → Disk) → M (Unit {0})
apply_effect (some why) e f w = (err (failure why), record w { time = suc w.time })
apply_effect none e f w =
    (ok tt, record w { time = suc w.time; disk = f w.disk; trace = e ∷ w.trace })

-- An effect on the disk, which the operating system may refuse: then it did not take place.
unfoldable pub effect : Event → (Disk → Disk) → M (Unit {0})
effect e f w = apply_effect (w.host.fault w.time e) e f w

-- A value that the host makes up: the time, a fresh identifier.
unfoldable pub fresh : (Host → ℕ → String) → M String
fresh f w = (ok (f w.host w.time), record w { time = suc w.time })

-- An answer of the host that changes from call to call.
unfoldable pub ask : (Host → ℕ → Bool) → M Bool
ask f w = (ok (f w.host w.time), record w { time = suc w.time })
