-- ===== src/BaseOs/Apply/Announced/Frame.antt =====
-- The frame of the installation: what `install_plan` keeps, `apply_update` of the base system keeps.
use xaac_thin_client_os.Base.{Bool, true, false, List, refl}
use xaac_thin_client_os.Json.{Fields}
use xaac_thin_client_os.Machine.{
  Event, locked, unlocked, M, Exc, runtime_error, failure, Disk, ◌>>=◌, pure, raise,
}
use xaac_thin_client_os.Machine.Keeps.{
  Keeps, keeps_rules, Keeps-bind, Keeps-try, Keeps-pure, Keeps-raise,
}
use xaac_thin_client_os.Machine.Quiet.{Ignores, look_rules, Ignores-effect}
use xaac_thin_client_os.Update.{holding_lock, release}
use xaac_thin_client_os.BaseOs.Runtime.{acquire_base, lock_refused, exclusive}
use xaac_thin_client_os.BaseOs.Check.{Checked}
use xaac_thin_client_os.BaseOs.Apply.{install_plan, upgrade, upgrade_if, apply_base_update}
use xaac_thin_client_os.BaseOs.Quiet.{
  is_other, Keeps-check_updates, Keeps-snapshot_checkpoint, Keeps-write_state, Keeps-audit_line,
  Keeps-fetch, Keeps-complete, Keeps-failed,
}

module _ {P : List Event → Type 0} (i : Ignores is_other P) where
  Keeps-lock_refused : (e : Exc) → Keeps P (lock_refused e)
  unfolding lock_refused
  Keeps-lock_refused (runtime_error why) = search keeps_rules
  Keeps-lock_refused (failure why) = search keeps_rules

  pub Keeps-acquire_base : Keeps P acquire_base
  unfolding acquire_base
  Keeps-acquire_base =
      search (keeps_rules, Keeps-lock_refused, λ (f : Disk → Disk). Ignores-effect i locked f refl)

  Keeps-release : Keeps P release
  unfolding release
  Keeps-release = record { at = λ w h. i.past unlocked refl w.trace h }

  pub Keeps-released : {A : Type 0} (a : A) → Keeps P (release >>= λ _. pure a)
  Keeps-released a = Keeps-bind _ _ Keeps-release (λ _. Keeps-pure a)

  pub Keeps-reraised : {A : Type 0} (e : Exc) → Keeps P (release >>= λ _. raise {A = A} e)
  Keeps-reraised e = Keeps-bind _ _ Keeps-release (λ _. Keeps-raise e)

  Keeps-exclusive : {A : Type 0} (m : M A) → Keeps P m → Keeps P (exclusive m)
  unfolding exclusive holding_lock
  Keeps-exclusive m k =
      Keeps-bind _ _ Keeps-acquire_base (λ _. Keeps-try _ _ _ k Keeps-released Keeps-reraised)

  module _ (policy : Fields) (installs : Keeps P (install_plan policy)) where
    Keeps-upgrade : (c : Checked) → Keeps P (upgrade policy c)
    unfolding upgrade
    Keeps-upgrade c =
        search
          (
            keeps_rules,
            Keeps-snapshot_checkpoint i,
            Keeps-write_state i,
            Keeps-audit_line i,
            Keeps-fetch i,
            Keeps-complete i,
            Keeps-failed i,
            λ (u : Unit {0}). installs,
          )
          depth 20

    Keeps-upgrade_if : (c : Checked) (b : Bool) → Keeps P (upgrade_if policy c b)
    unfolding upgrade_if
    Keeps-upgrade_if c true = search look_rules
    Keeps-upgrade_if c false = Keeps-upgrade c

    pub Keeps-apply_base_update : Keeps P (apply_base_update policy)
    unfolding apply_base_update
    Keeps-apply_base_update =
        Keeps-exclusive _
          (Keeps-bind _ _ (Keeps-check_updates i policy true) (λ c. Keeps-upgrade_if c _))
