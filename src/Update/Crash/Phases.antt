-- ===== src/Update/Crash/Phases.antt =====
-- The phases of a transaction, as properties of its effects, and how the state file moves between
-- them.
use xaac_thin_client_os.Base.{
  Bool, true, false, none, some, List, ◌∷◌, ◌≡◌, refl, ◌⊎◌, inl, inr, arith, ◌&&◌, not,
}
use xaac_thin_client_os.Json.{Json, text}
use xaac_thin_client_os.Machine.{Event, wrote, atomic_json}
use xaac_thin_client_os.Machine.Keeps.{keeps_rules}
use xaac_thin_client_os.Machine.Quiet.{Ignores, IsUsual, look_rules}
use xaac_thin_client_os.Machine.Yields.{Yields, Yields-keeps, Yields-bind, Yields-effect}
use xaac_thin_client_os.Update.Policy.{state_path}
use xaac_thin_client_os.Update.Manual.{is_interrupted}
use xaac_thin_client_os.Update.Quiet.{IsSpared}
use xaac_thin_client_os.Update.Crash.{
  published, changes_packages, status_of, status_in, is_verdict, unsettled, IsCrashSafe,
}

-- No change of packages waits for a verdict.
pub record Settled (t : List Event) : Type 0 where
  pub safe : IsCrashSafe t
  pub clean : unsettled t ≡ false

-- The state file makes the next boot roll back.
pub record Armed (t : List Event) : Type 0 where
  pub safe : IsCrashSafe t
  pub ready : is_interrupted (status_of t) ≡ true

pub record Confirmed (t : List Event) : Type 0 where
  pub safe : IsCrashSafe t
  pub status : status_of t ≡ text "confirmed"
  pub clean : unsettled t ≡ false

-- One or the other.
abbrev pub Recoverable : List Event → Type 0
Recoverable t = Settled t ⊎ Armed t

-- Effects that leave the state file alone.
abbrev pub is_silent : Event → Bool
is_silent e = elim (published e) [ none ↦ true | some s ↦ false ]

-- Effects that leave the packages alone as well.
abbrev pub is_quiet : Event → Bool
is_quiet e = is_silent e && not (changes_packages e)

pub Ignores-Armed : Ignores is_silent Armed
Ignores-Armed = record { past = λ e q t h. ground arith }

pub Ignores-Settled : Ignores is_quiet Settled
Ignores-Settled = record { past = λ e q t h. ground arith }

pub Ignores-Confirmed : Ignores is_quiet Confirmed
Ignores-Confirmed = record { past = λ e q t h. ground arith }

pub Ignores-Recoverable : Ignores is_quiet Recoverable
Ignores-Recoverable = record { past = λ e q t h. ground arith }

IsUsual-is_silent : IsUsual is_silent
IsUsual-is_silent = record {
  made_dir_lem = λ p. refl;
  copied_lem = λ p q. refl;
  removed_lem = λ p. refl;
  query_lem = λ c cs. refl;
  pgrep_lem = λ c cs. refl;
  systemctl_lem = λ c cs. refl;
  audit_lem = refl;
  check_lem = refl;
}

IsUsual-is_quiet : IsUsual is_quiet
IsUsual-is_quiet = record {
  made_dir_lem = λ p. refl;
  copied_lem = λ p q. refl;
  removed_lem = λ p. refl;
  query_lem = λ c cs. refl;
  pgrep_lem = λ c cs. refl;
  systemctl_lem = λ c cs. refl;
  audit_lem = refl;
  check_lem = refl;
}

pub IsSpared-is_silent : IsSpared is_silent
IsSpared-is_silent = record {
  usual = IsUsual-is_silent;
  wrote_lem = λ p v other. ground arith;
  archived_lem = λ p. refl;
  extracted_lem = λ p. refl;
  audited_lem = λ n. refl;
  locked_lem = refl;
  pkill_lem = λ c cs. refl;
}

pub IsSpared-is_quiet : IsSpared is_quiet
IsSpared-is_quiet = record {
  usual = IsUsual-is_quiet;
  wrote_lem = λ p v other. ground arith;
  archived_lem = λ p. refl;
  extracted_lem = λ p. refl;
  audited_lem = λ n. refl;
  locked_lem = refl;
  pkill_lem = λ c cs. refl;
}

-- The state file is written, or the attempt leaves no mark.
pub Yields-write :
    {P Q : List Event → Type 0} (v : Json)
    → ((t : List Event) → P t → Q (wrote state_path v ∷ t))
    → Yields P (atomic_json state_path v) Q P
unfolding atomic_json
Yields-write v step =
    Yields-bind _ _ (Yields-keeps _ (search look_rules)) (λ unsafe.
      Yields-bind _ _ (Yields-keeps _ (search keeps_rules)) (λ _. Yields-effect _ _ step))

-- A status that an interruption finds arms the next boot.
pub arms :
    (v : Json) (t : List Event)
    → is_interrupted (status_in v) ≡ true
    → IsCrashSafe t
    → Armed (wrote state_path v ∷ t)
arms v t i safe = record { safe = (λ _. i, safe); ready = i }

-- A verdict settles.
pub settles :
    (v : Json) (t : List Event)
    → is_verdict (status_in v) ≡ true
    → IsCrashSafe t
    → Settled (wrote state_path v ∷ t)
settles v t i safe = ground arith

-- With nothing to settle, any status may be written.
pub stays-Settled : (v : Json) (t : List Event) → Settled t → Settled (wrote state_path v ∷ t)
stays-Settled v t h = ground arith

clean_after_confirmed :
    (v : Json) (t : List Event)
    → status_in v ≡ text "confirmed"
    → unsettled (wrote state_path v ∷ t) ≡ false
clean_after_confirmed v t e = rw e

pub confirms :
    (v : Json) (t : List Event)
    → status_in v ≡ text "confirmed"
    → IsCrashSafe t
    → Confirmed (wrote state_path v ∷ t)
confirms v t e safe =
    let clean = clean_after_confirmed v t e in
    record { safe = (λ u. cc clean, safe); status = e; clean = clean }

pub Recoverable-safe : (t : List Event) → Recoverable t → IsCrashSafe t
Recoverable-safe t (inl s) = s.safe
Recoverable-safe t (inr a) = a.safe

pub Confirmed-Settled : (t : List Event) → Confirmed t → Settled t
Confirmed-Settled t c = record { safe = c.safe; clean = c.clean }
