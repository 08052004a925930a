-- ===== src/BaseOs/Apply/Reapproved.antt =====
-- What an installation rests on: a plan that was approved before the download and again behind it.
use xaac_thin_client_os.Base.{
  Bool, pos, subst, sym, ltb_ℤ, true, false, not, String, ◌≡◌, refl, arith, Bool-cases, inl, inr,
  str_eq, eq_iff, ◌∙◌, ap,
}
use xaac_thin_client_os.Json.{Fields}
use xaac_thin_client_os.Machine.{
  World, M, Result, ok, err, Exc, fresh, ◌>>=◌, ◌>>◌, pure, raise, try, settle, continue, catch,
  handled, raise_if, runtime_error, failure, gets,
}
use xaac_thin_client_os.Machine.Keeps.{Keeps, Keeps-pure, Keeps-raise, Keeps-fresh}
use xaac_thin_client_os.Machine.Quiet.{look_rules}
use xaac_thin_client_os.Machine.Inversion.{bind-ok}
use xaac_thin_client_os.Update.{holding_lock, int_setting}
use xaac_thin_client_os.BaseOs.Runtime.{exclusive, acquire_base, audit_line, write_state}
use xaac_thin_client_os.BaseOs.Plan.{Approval}
use xaac_thin_client_os.BaseOs.Check.{Checked, check_updates, approved_plan, plan_fingerprint}
use xaac_thin_client_os.BaseOs.Quiet.{
  Keeps-check_updates, Keeps-snapshot_checkpoint, Keeps-write_state, Keeps-audit_line, Keeps-fetch,
  Keeps-failed,
}
use xaac_thin_client_os.BaseOs.Apply.{
  download, snapshot_checkpoint, started_state, fetch, install_plan, complete, reapprove, failed,
  upgrade, upgrade_if, apply_base_update,
}
use xaac_thin_client_os.BaseOs.Apply.Announced.Frame.{
  Keeps-acquire_base, Keeps-released, Keeps-reraised,
}
use xaac_thin_client_os.BaseOs.Apply.Finished.{installs, HasNoInstall, Ignores-HasNoInstall}

-- A run that told apt to install where nothing was installed before.
abbrev Installs : {A : Type 0} → M A → World → Type 0
Installs m w = (installs w.trace ≡ false) × (installs (m w).1.trace ≡ true)

cannot : {A B : Type 0} (m : M A) (w : World) → Keeps HasNoInstall m → Installs m w → B
cannot m w k (clean, told) = absurd (ground (arith, k.at w clean, told))

module _ {A B : Type 0} where
  continued :
      (r : Result A × World) (f : A → M B)
      → installs r.1.trace ≡ false
      → installs (continue r.0 f r.1).1.trace ≡ true
      → (a : A) × (r.0 ≡ ok a) × Installs (f a) r.1
  unfolding raise
  continued (ok a, v) f clean told = (a, refl, (clean, told))
  continued (err e, v) f clean told = absurd (ground (arith, clean, told))

  -- The installation is in what follows `m`.
  later :
      (m : M A) (f : A → M B) (w : World)
      → Keeps HasNoInstall m
      → Installs (m >>= f) w
      → (a : A) × ((m w).0 ≡ ok a) × Installs (f a) (m w).1
  unfolding ◌>>=◌
  later m f w k (clean, told) = continued (m w) f (k.at w clean) told

  -- A run goes on with what `m` returns.
  goes_on : (m : M A) (f : A → M B) (w : World) (a : A) → (m w).0 ≡ ok a → (m >>= f) w ≡ f a (m w).1
  unfolding ◌>>=◌
  goes_on m f w a e = rw (e)

  settled :
      (r : Result A × World) (f : A → M B) (g : Exc → M B)
      → ((a : A) → Keeps HasNoInstall (f a))
      → ((e : Exc) → Keeps HasNoInstall (g e))
      → installs r.1.trace ≡ false
      → installs (settle r.0 f g r.1).1.trace ≡ false
  settled (ok a, v) f g kf kg clean = (kf a).at v clean
  settled (err e, v) f g kf kg clean = (kg e).at v clean

  -- The installation is in the body of the `try` block.
  inside :
      (m : M A) (f : A → M B) (g : Exc → M B) (w : World)
      → ((a : A) → Keeps HasNoInstall (f a))
      → ((e : Exc) → Keeps HasNoInstall (g e))
      → Installs (try m f g) w
      → Installs m w
  unfolding try
  inside m f g w kf kg (clean, told) = elim (Bool-cases (installs (m w).1.trace)) [
    | inl here ↦ (clean, here)
    | inr gone ↦ absurd (ground (arith, settled (m w) f g kf kg gone, told))
  ]

-- What a run does from the check to the download, and from there to the second approval.
abbrev pub before_download : Fields → Checked → M (Unit {0})
before_download policy plan = do
  snapshot_checkpoint policy plan
  now ← fresh (λ h. h.now)
  write_state policy (started_state now plan)
  audit_line policy "base_os_update_started"

abbrev pub download_enough : Fields → M (Unit {0})
download_enough policy = do
  download
  free ← gets (λ w. w.host.free_bytes w.time)
  minimum ← int_setting policy "policy" "minimum_free_after_download_bytes"
  raise_if (ltb_ℤ (pos free) minimum) (runtime_error "Espai insuficient després de la descàrrega")

abbrev pub approve_again : Fields → M Approval
approve_again policy = approved_plan policy "La reverificació del pla APT ha fallat"

-- In the run from the world `w`, a plan is approved, and behind the download a second one, with the
-- same fingerprint.
pub record IsApprovedTwice (policy : Fields) (w : World) : Type 0 where
  pub plan : Checked
  pub checked : (check_updates policy true (acquire_base w).1).0 ≡ ok plan
  pub downloaded : World
  pub downloaded_lem :
      downloaded
      ≡ (download_enough policy
          (before_download policy plan (check_updates policy true (acquire_base w).1).1).1).1
  pub second : Approval
  pub reapproved : (approve_again policy downloaded).0 ≡ ok second
  pub same :
      (plan_fingerprint second.packages (approve_again policy downloaded).1).0 ≡ ok plan.fingerprint

-- A second approval, in the world `v`.
abbrev Second : Fields → Checked → World → Type 0
Second policy plan v =
    (second : Approval) × ((approve_again policy v).0 ≡ ok second)
    × ((plan_fingerprint second.packages (approve_again policy v).1).0 ≡ ok plan.fingerprint)

same_text :
    (f g : String) (x : Exc) (u : World) → (raise_if (not (str_eq f g)) x u).0 ≡ ok tt → f ≡ g
unfolding raise
same_text f g x u e = elim (Bool-cases (str_eq f g)) [
  | inl same ↦ (eq_iff f g).0 same
  | inr other ↦ absurd (ground (arith, other, e))
]

reapprove-Second :
    (policy : Fields) (plan : Checked) (w : World)
    → (reapprove policy plan w).0 ≡ ok tt
    → Second policy plan w
unfolding reapprove
reapprove-Second policy plan w e =
    let (second, (h1, e1)) = bind-ok _ _ w tt e in
    let (fingerprint, (h2, e2)) = bind-ok _ _ (approve_again policy w).1 tt e1 in
    (second, h1, h2 ∙ ap ok (same_text fingerprint plan.fingerprint _ _ e2))

fetch-Second :
    (policy : Fields) (plan : Checked) (w : World)
    → (fetch policy plan w).0 ≡ ok tt
    → Second policy plan (download_enough policy w).1
unfolding fetch
fetch-Second policy plan w e =
    let (done, (h1, e1)) = bind-ok _ _ w tt e in
    let (free, (h2, e2)) = bind-ok _ _ (download w).1 tt e1 in
    let (minimum, (h3, e3)) = bind-ok _ _ _ tt e2 in
    let (enough, (h4, e4)) = bind-ok _ _ _ tt e3 in
    subst (Second policy plan)
      (sym (
        ap (λ r. r.1)
          (goes_on download _ w done h1 ∙ goes_on _ _ _ free h2 ∙ goes_on _ _ _ minimum h3)))
      (reapprove-Second policy plan _ e4)

handled-Keeps : (policy : Fields) (e : Exc) → Keeps HasNoInstall (handled (failed policy) e)
handled-Keeps policy (runtime_error s) = Keeps-failed Ignores-HasNoInstall policy s
handled-Keeps policy (failure s) = Keeps-raise _

abbrev fetched_at : Fields → Checked → World → World
fetched_at policy plan w = (download_enough policy (before_download policy plan w).1).1

upgrade-Second :
    (policy : Fields) (plan : Checked) (w : World)
    → Installs (upgrade policy plan) w
    → Second policy plan (fetched_at policy plan w)
unfolding upgrade catch
upgrade-Second policy plan w h =
    let (done, e, h1) =
      later _ _ w (Keeps-snapshot_checkpoint Ignores-HasNoInstall policy plan) h in
    let v : World = (snapshot_checkpoint policy plan w).1 in
    let (now, e2, h2) = later _ _ v (Keeps-fresh _) h1 in
    let v2 : World = (fresh (λ h. h.now) v).1 in
    let (wrote_it, e3, h3) = later _ _ v2 (Keeps-write_state Ignores-HasNoInstall policy _) h2 in
    let v3 : World = (write_state policy (started_state now plan) v2).1 in
    let (audited_it, e4, h4) = later _ _ v3 (Keeps-audit_line Ignores-HasNoInstall policy _) h3 in
    let v4 : World = (audit_line policy "base_os_update_started" v3).1 in
    let (fetched, e5, h5) =
      later (fetch policy plan) (λ _. install_plan policy >>= λ _. complete policy plan) v4
        (Keeps-fetch Ignores-HasNoInstall policy plan)
        (inside (fetch policy plan >>= λ _. install_plan policy >>= λ _. complete policy plan) pure
          (handled (failed policy)) v4 Keeps-pure (handled-Keeps policy) h4) in
    subst (λ u. Second policy plan (download_enough policy u).1)
      (sym
        (ap (λ r. r.1) (goes_on _ _ w done e ∙ goes_on _ _ v now e2 ∙ goes_on _ _ v2 wrote_it e3)))
      (fetch-Second policy plan v4 e5)

upgrade_if-Second :
    (policy : Fields) (plan : Checked) (b : Bool) (w : World)
    → Installs (upgrade_if policy plan b) w
    → Second policy plan (fetched_at policy plan w)
unfolding upgrade_if
upgrade_if-Second policy plan true w h =
    cannot (upgrade_if policy plan true) w (search look_rules) h
upgrade_if-Second policy plan false w h = upgrade-Second policy plan w h

-- The base updater tells apt to install only where a first simulation was approved in a check of
-- this run that passed, and a second one, of this run and behind the download, was approved too and
-- has the fingerprint of the first, if nothing was installed before.
pub apply_base_update-IsApprovedTwice :
    (policy : Fields) (w : World)
    → installs w.trace ≡ false
    → installs (apply_base_update policy w).1.trace ≡ true
    → IsApprovedTwice policy w
unfolding apply_base_update exclusive holding_lock
apply_base_update-IsApprovedTwice policy w clean told =
    let (done, e, h) = later _ _ w (Keeps-acquire_base Ignores-HasNoInstall) (clean, told) in
    let v : World = (acquire_base w).1 in
    let inner =
      inside _ _ _ v (Keeps-released Ignores-HasNoInstall) (Keeps-reraised Ignores-HasNoInstall)
        h in
    let (plan, e2, h2) = later _ _ v (Keeps-check_updates Ignores-HasNoInstall policy true) inner in
    let (second, approved, same) =
      upgrade_if-Second policy plan _ (check_updates policy true v).1 h2 in
    record {
      plan = plan;
      checked = e2;
      downloaded = fetched_at policy plan (check_updates policy true v).1;
      downloaded_lem = refl;
      second = second;
      reapproved = approved;
      same = same;
    }
