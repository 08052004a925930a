-- ===== src/BaseOs/Apply/Finished.antt =====
-- What an update of the base system that returns has done.
use xaac_thin_client_os.Base.{
  Bool, true, false, String, List, [], ◌∷◌, ◌≡◌, refl, ◌⊎◌, inl, inr, ◌||◌, arith,
}
use xaac_thin_client_os.Json.{Fields, Json, text}
use xaac_thin_client_os.Machine.{
  World, Event, audited, unlocked, ok, Exc, Disk, catch, handled, runtime_error, failure,
}
use xaac_thin_client_os.Machine.Keeps.{Keeps, keeps_rules, Keeps-bind, Keeps-pure}
use xaac_thin_client_os.Machine.Quiet.{Ignores, look_rules, Ignores-run, Ignores-effect}
use xaac_thin_client_os.Machine.Yields.{
  Yields-keeps, Yields-bind, Yields-try, Yields-raise, Yields-weaken, Implies,
}
use xaac_thin_client_os.Machine.Status.{status_at, is_unwritten, Ignores-status_at}
use xaac_thin_client_os.Machine.Returns.{
  Any, Ignores-Any, Returns, Returns-keeps, Returns-Any, after-returns,
}
use xaac_thin_client_os.Update.{holding_lock, release}
use xaac_thin_client_os.BaseOs.Runtime.{audit_line, exclusive}
use xaac_thin_client_os.BaseOs.Check.{Checked}
use xaac_thin_client_os.Update.Quiet.{Keeps-path_setting}
use xaac_thin_client_os.BaseOs.Quiet.{is_install, is_other, Keeps-check_updates}
use xaac_thin_client_os.BaseOs.Apply.{complete, failed, upgrade, upgrade_if, apply_base_update}
use xaac_thin_client_os.BaseOs.Apply.Announced.{StateAt, Yields-write_state}
use xaac_thin_client_os.BaseOs.Apply.Announced.Frame.{Keeps-acquire_base}

-- apt was told to install.
abbrev pub installs : List Event → Bool
installs [] = false
installs (e ∷ t) = is_install e || installs t

abbrev pub HasNoInstall : List Event → Type 0
HasNoInstall t = installs t ≡ false

pub Ignores-HasNoInstall : Ignores is_other HasNoInstall
Ignores-HasNoInstall = record { past = λ e q t h. ground (arith, q, h) }

module _ (path : String) where
  -- The state file says that the update is complete.
  abbrev pub IsCompleted : List Event → Type 0
  IsCompleted t = status_at path t ≡ text "completed"

  -- Either nothing was installed, or the update is complete.
  abbrev pub IsSettled : List Event → Type 0
  IsSettled t = HasNoInstall t ⊎ IsCompleted t

  Ignores-IsCompleted : Ignores is_unwritten IsCompleted
  Ignores-IsCompleted = Ignores-status_at path (text "completed")

  Keeps-last_audit : (policy : Fields) (s : String) → Keeps IsCompleted (audit_line policy s)
  unfolding audit_line
  Keeps-last_audit policy s =
      search
        (
          keeps_rules,
          Keeps-path_setting,
          λ (f : Disk → Disk). Ignores-effect Ignores-IsCompleted (audited s) f refl,
        )
        depth 14

  raises :
      (policy : Fields) (why : String) (Q : List Event → Type 0) → Returns Any (failed policy why) Q
  unfolding failed
  raises policy why Q = Yields-bind _ _ (Returns-Any _) (λ _.
      Yields-bind _ _ (Returns-Any _) (λ _. Yields-bind _ _ (Returns-Any _) (λ _. Yields-raise _)))

  handled-raises :
      (policy : Fields) (e : Exc) (Q : List Event → Type 0)
      → Returns Any (handled (failed policy) e) Q
  handled-raises policy (runtime_error s) Q = raises policy s Q
  handled-raises policy (failure s) Q = Yields-raise _

  module _ (policy : Fields) (at : StateAt policy path) (plan : Checked) where
    complete-IsCompleted : Returns Any (complete policy plan) IsCompleted
    unfolding complete
    complete-IsCompleted = Yields-bind _ _ (Returns-Any _) (λ health.
        Yields-bind _ _ (Returns-Any _) (λ _. Yields-bind _ _ (Returns-Any _) (λ there.
          Yields-bind _ _ (Returns-Any _) (λ now.
            Yields-bind _ _
              (Yields-weaken {P' = Any} _ (λ t h. h) (λ t h. h.1) (λ t h. tt)
                (Yields-write_state path Any Ignores-Any policy (text "completed") _ at refl))
              (λ _. Yields-bind _ _ (Returns-keeps _ (Keeps-last_audit policy _)) (λ _.
                Yields-bind _ _ (Returns-keeps _ (search (Ignores-run Ignores-IsCompleted)))
                  (λ _. Returns-keeps _ (Keeps-pure _))))))))

    upgrade-IsCompleted : Returns Any (upgrade policy plan) IsCompleted
    unfolding upgrade catch
    upgrade-IsCompleted = Yields-bind _ _ (Returns-Any _) (λ _.
        Yields-bind _ _ (Returns-Any _) (λ now. Yields-bind _ _ (Returns-Any _) (λ _.
          Yields-bind _ _ (Returns-Any _) (λ _.
            Yields-try _ _ _
              (Yields-bind _ _ (Returns-Any _)
                (λ _. Yields-bind _ _ (Returns-Any _) (λ _. complete-IsCompleted)))
              (λ a. Returns-keeps _ (Keeps-pure a)) (λ e. handled-raises policy e _)))))

  either : Implies IsCompleted IsSettled
  either t h = inr h

  neither : Implies HasNoInstall IsSettled
  neither t h = inl h

  module _ (policy : Fields) (at : StateAt policy path) where
    upgrade_if-IsSettled :
        (plan : Checked) (b : Bool) → Returns HasNoInstall (upgrade_if policy plan b) IsSettled
    unfolding upgrade_if
    upgrade_if-IsSettled plan true =
        Yields-weaken {P' = HasNoInstall} _ (λ t h. h) neither (λ t h. tt)
          (Yields-keeps _ (search look_rules))
    upgrade_if-IsSettled plan false =
        Yields-weaken _ (λ t h. tt) either (λ t h. h) (upgrade-IsCompleted policy at plan)

    unlocked-IsSettled : (t : List Event) → IsSettled t → IsSettled (unlocked ∷ t)
    unlocked-IsSettled t (inl h) = inl h
    unlocked-IsSettled t (inr h) = inr h

    release-IsSettled : Keeps IsSettled release
    unfolding release
    release-IsSettled = record { at = λ w h. unlocked-IsSettled w.trace h }

    apply-IsSettled : Returns HasNoInstall (apply_base_update policy) IsSettled
    unfolding apply_base_update exclusive holding_lock
    apply-IsSettled =
        Yields-bind _ _ (Returns-keeps _ (Keeps-acquire_base Ignores-HasNoInstall)) (λ _.
          Yields-try _ _ _
            (Yields-bind _ _
              (Returns-keeps _ (Keeps-check_updates Ignores-HasNoInstall policy true))
              (λ plan. upgrade_if-IsSettled plan _))
            (λ a. Returns-keeps _ (Keeps-bind _ _ release-IsSettled (λ _. Keeps-pure a)))
            (λ e. Yields-bind _ _ (Returns-Any _) (λ _. Yields-raise e)))

-- An update of the base system that returns has told apt to install nothing, or has left the status
-- `completed`, if the policy names the state file and nothing was installed before.
pub apply_base_update-IsSettled :
    (policy : Fields) (path : String) (w : World) (a : Json)
    → StateAt policy path
    → installs w.trace ≡ false
    → (apply_base_update policy w).0 ≡ ok a
    → IsSettled path (apply_base_update policy w).1.trace
apply_base_update-IsSettled policy path w a at clean e =
    after-returns (IsSettled path) (apply_base_update policy w) a
      ((apply-IsSettled path policy at).at w clean) e
