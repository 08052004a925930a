-- ===== src/Update/Crash/Safety.antt =====
-- `apply_update` as a whole: wherever it is cut off, and however it ends.
use xaac_thin_client_os.Base.{Bool, true, false, String, List, ◌≡◌, refl, inl, inr, ◌⊎◌}
use xaac_thin_client_os.Json.{text}
use xaac_thin_client_os.Machine.{World, Event, unlocked, Result, ok, err, M, Exc}
use xaac_thin_client_os.Machine.Keeps.{Keeps, keeps_rules, Keeps-fresh}
use xaac_thin_client_os.Machine.Yields.{
  After, Yields-keeps, Yields-bind, Yields-try, Yields-raise, Yields-weaken,
}
use xaac_thin_client_os.Update.Policy.{release, holding_lock}
use xaac_thin_client_os.Update.Transaction.{Transaction, transaction_json, write_transaction_state}
use xaac_thin_client_os.Update.Apply.{apply_update}
use xaac_thin_client_os.Update.Manual.{is_interrupted}
use xaac_thin_client_os.Update.Quiet.{Keeps-load_policy}
use xaac_thin_client_os.Update.Spares.{Keeps-acquire}
use xaac_thin_client_os.Update.Crash.{unsettled, status_of, IsCrashSafe}
use xaac_thin_client_os.Update.Crash.Phases.{
  Settled, Confirmed, Recoverable, Ignores-Settled, Ignores-Confirmed, Ignores-Recoverable,
  IsSpared-is_quiet, Yields-write, stays-Settled, Recoverable-safe,
}
use xaac_thin_client_os.Update.Crash.Stages.{
  Leads, leads, same, from_Settled, from_Confirmed, Yields-abort, execute-Confirmed, Keeps-prepare,
}

release-Confirmed : Keeps Confirmed release
unfolding release
release-Confirmed = record { at = λ w h. Ignores-Confirmed.past unlocked refl w.trace h }

release-Recoverable : Keeps Recoverable release
unfolding release
release-Recoverable = record { at = λ w h. Ignores-Recoverable.past unlocked refl w.trace h }

holding_lock-leads :
    {A : Type 0} {P : List Event → Type 0} (m : M A)
    → Leads P m Confirmed
    → Leads P (holding_lock m) Confirmed
unfolding holding_lock
holding_lock-leads m l =
    Yields-try _ _ _ l (λ a. leads _ (search (keeps_rules, release-Confirmed)) from_Confirmed)
      (λ e. Yields-bind _ _ (Yields-keeps _ release-Recoverable) (λ _. Yields-raise e))

write_preparing : (s : Transaction) → Leads Settled (write_transaction_state s) Settled
unfolding write_transaction_state
write_preparing s =
    Yields-weaken _ (same Settled) (same Settled) from_Settled
      (Yields-write (transaction_json s) (stays-Settled (transaction_json s)))

apply_update-leads : (b : Bool) (m g d : String) → Leads Settled (apply_update b m g d) Confirmed
unfolding apply_update
apply_update-leads b m g d = Yields-bind _ _ (leads _ Keeps-load_policy from_Settled) (λ policy.
    Yields-bind _ _ (leads _ (Keeps-acquire Ignores-Settled IsSpared-is_quiet) from_Settled) (λ _.
      Yields-bind _ _ (leads _ (Keeps-fresh _) from_Settled) (λ txid.
        Yields-bind _ _ (leads _ (Keeps-fresh _) from_Settled) (λ started.
          Yields-bind _ _ (write_preparing _) (λ _. holding_lock-leads _ (
            Yields-try _ _ _ (leads _ (Keeps-prepare _ _ _ _ _ _) from_Settled)
              (λ p. execute-Confirmed p _ refl) (λ e. Yields-abort _ e)))))))

After-safe :
    {A : Type 0} (r : Result A × World) → After Confirmed Recoverable r → IsCrashSafe r.1.trace
After-safe (ok a, w) h = h.safe
After-safe (err e, w) h = Recoverable-safe w.trace h

-- Crash safety of an update: if the record of effects was crash safe and nothing was left unsettled
-- when `apply_update` was called, then whatever the host answers, wherever its effects are cut off, and however it ends, packages that
-- dpkg was told to unpack or configure with no verdict written since are covered by a state file
-- whose status makes `recover_interrupted` roll back at the next boot.
pub apply_update-IsCrashSafe :
    (audit : Bool) (manifest signature bundle : String) (w : World)
    → IsCrashSafe w.trace
    → unsettled w.trace ≡ false
    → IsCrashSafe (apply_update audit manifest signature bundle w).1.trace
apply_update-IsCrashSafe b m g d w safe clean =
    After-safe (apply_update b m g d w)
      ((apply_update-leads b m g d).at w (record { safe = safe; clean = clean }))

After-ok :
    {A : Type 0} (r : Result A × World) (a : A)
    → After Confirmed Recoverable r
    → r.0 ≡ ok a
    → (status_of r.1.trace ≡ text "confirmed") × (unsettled r.1.trace ≡ false)
After-ok (ok a, w) b h e = (h.status, h.clean)
After-ok (err x, w) b h e = cc

After-err :
    {A : Type 0} (r : Result A × World) (x : Exc)
    → After Confirmed Recoverable r
    → r.0 ≡ err x
    → (unsettled r.1.trace ≡ false) ⊎ (is_interrupted (status_of r.1.trace) ≡ true)
After-err (ok a, w) x h e = cc
After-err (err y, w) x (inl settled) e = inl settled.clean
After-err (err y, w) x (inr armed) e = inr armed.ready

-- Called with a crash-safe record and nothing unsettled, an update that returns has written `confirmed` as its last status, and no change of packages
-- stands behind that verdict.
pub apply_update-confirmed :
    (audit : Bool) (manifest signature bundle : String) (w : World) (s : Transaction)
    → IsCrashSafe w.trace
    → unsettled w.trace ≡ false
    → (apply_update audit manifest signature bundle w).0 ≡ ok s
    → (status_of (apply_update audit manifest signature bundle w).1.trace ≡ text "confirmed")
      × (unsettled (apply_update audit manifest signature bundle w).1.trace ≡ false)
apply_update-confirmed b m g d w s safe clean e =
    After-ok (apply_update b m g d w) s
      ((apply_update-leads b m g d).at w (record { safe = safe; clean = clean })) e

-- Called with a crash-safe record and nothing unsettled, an update that raises has either settled every change of packages by a verdict, or has left a
-- status in the state file at which the next boot rolls back.
pub apply_update_raises-recoverable :
    (audit : Bool) (manifest signature bundle : String) (w : World) (x : Exc)
    → IsCrashSafe w.trace
    → unsettled w.trace ≡ false
    → (apply_update audit manifest signature bundle w).0 ≡ err x
    → (unsettled (apply_update audit manifest signature bundle w).1.trace ≡ false)
      ⊎ (is_interrupted (status_of (apply_update audit manifest signature bundle w).1.trace) ≡ true)
apply_update_raises-recoverable b m g d w x safe clean e =
    After-err (apply_update b m g d w) x
      ((apply_update-leads b m g d).at w (record { safe = safe; clean = clean })) e
