-- ===== src/Update/Crash/Stages.antt =====
-- The stages of `apply_update`, each with the phase that it starts in and those that it may end in.
use xaac_thin_client_os.Base.{Bool, true, false, String, List, [], ◌∷◌, ◌≡◌, refl, inl, inr, member}
use xaac_thin_client_os.Json.{Fields, text}
use xaac_thin_client_os.Machine.{Event, M, Exc}
use xaac_thin_client_os.Machine.Keeps.{
  Keeps, keeps_rules, Keeps-pure, Keeps-raise, Keeps-bind, Keeps-fresh,
}
use xaac_thin_client_os.Machine.Quiet.{
  Keeps-installed_version, Keeps-ensure_dir, Keeps-copy, Keeps-remove,
}
use xaac_thin_client_os.Machine.Yields.{
  Yields, Yields-keeps, Yields-bind, Yields-try, Yields-raise, Yields-weaken, Implies, either_way,
}
use xaac_thin_client_os.Update.Policy.{audit_event}
use xaac_thin_client_os.Update.Manifest.{Component}
use xaac_thin_client_os.Update.Transaction.{Transaction, transaction_json, write_transaction_state}
use xaac_thin_client_os.Update.Health.{Verdict}
use xaac_thin_client_os.Update.Undo.{
  Plan, abort, undo, undone, finish_undo, rollback_failed, roll_back,
}
use xaac_thin_client_os.Update.Apply.{
  Work, prepare, choose, staged_path, changed_packages, install, install_changed, check, accept,
  clear_staging, confirm, finish, validate, install_and_validate, execute,
}
use xaac_thin_client_os.Update.Manual.{interrupted_statuses}
use xaac_thin_client_os.Update.Quiet.{read_rules}
use xaac_thin_client_os.Update.Spares.{
  Keeps-audit_event, Keeps-copy_verified_bundle, Keeps-create_recovery_point,
}
use xaac_thin_client_os.Update.Sparing.{
  Keeps-is_blocked, Keeps-snapshot_runtime_state, Keeps-restart_changed, Keeps-health_check,
  Keeps-block_failed, Keeps-prune_recovery_points, Keeps-cache_candidates, Keeps-install_debs,
  Keeps-rollback_from_recovery,
}
use xaac_thin_client_os.Update.Crash.{verdicts}
use xaac_thin_client_os.Update.Crash.Phases.{
  Settled, Armed, Confirmed, Recoverable, Ignores-Armed, Ignores-Settled, Ignores-Confirmed,
  Ignores-Recoverable, IsSpared-is_silent, IsSpared-is_quiet, Yields-write, arms, settles, confirms,
  Recoverable-safe, Confirmed-Settled,
}

pub from_Armed : Implies Armed Recoverable
from_Armed t h = inr h

pub from_Settled : Implies Settled Recoverable
from_Settled t h = inl h

pub from_Confirmed : Implies Confirmed Recoverable
from_Confirmed t h = inl (Confirmed-Settled t h)

pub same : (P : List Event → Type 0) → Implies P P
same P t h = h

-- However it ends, what is left is recoverable; where it returns, more is known.
abbrev pub Leads : {A : Type 0} → (List Event → Type 0) → M A → (List Event → Type 0) → Type 0
Leads P m Q = Yields P m Q Recoverable

pub leads :
    {A : Type 0} {P : List Event → Type 0} (m : M A)
    → Keeps P m
    → Implies P Recoverable
    → Leads P m P
leads {P = P} m k p = Yields-weaken m (same P) (same P) p (Yields-keeps m k)

module _ {P : List Event → Type 0} (s : Transaction) (p : Implies P Recoverable) where
  -- Writing a status that an interruption finds.
  write_arms :
      member s.status interrupted_statuses ≡ true → Leads P (write_transaction_state s) Armed
  unfolding write_transaction_state
  write_arms i = Yields-weaken _ (same P) (same Armed) p (
      Yields-write (transaction_json s)
        (λ t h. arms (transaction_json s) t i (Recoverable-safe t (p t h))))

  -- Writing a verdict.
  write_settles : member s.status verdicts ≡ true → Leads P (write_transaction_state s) Settled
  unfolding write_transaction_state
  write_settles v = Yields-weaken _ (same P) (same Settled) p (
      Yields-write (transaction_json s)
        (λ t h. settles (transaction_json s) t v (Recoverable-safe t (p t h))))

  write_confirms : text s.status ≡ text "confirmed" → Leads P (write_transaction_state s) Confirmed
  unfolding write_transaction_state
  write_confirms e = Yields-weaken _ (same P) (same Confirmed) p (
      Yields-write (transaction_json s)
        (λ t h. confirms (transaction_json s) t e (Recoverable-safe t (p t h))))

pub Yields-abort :
    {A : Type 0} {Q : List Event → Type 0} (b : Bool) (e : Exc)
    → Leads Recoverable (abort {A = A} b e) Q
unfolding abort
Yields-abort b e =
    Yields-bind _ _ (Yields-keeps _ (Keeps-audit_event Ignores-Recoverable IsSpared-is_quiet b _))
      (λ _. Yields-raise _)

audit_leads :
    {P : List Event → Type 0} (b : Bool) (n : String)
    → Implies P Recoverable
    → Leads P (audit_event b n) Recoverable
audit_leads b n p =
    Yields-weaken _ p (same Recoverable) (same Recoverable)
      (Yields-keeps _ (Keeps-audit_event Ignores-Recoverable IsSpared-is_quiet b n))

Keeps-undo : (p : Plan) (s : Transaction) (r : String) → Keeps Recoverable (undo p s r)
unfolding undo
Keeps-undo p s r =
    either_way _
      (Yields-bind _ _ (write_arms _ (same Recoverable) refl) (λ _.
        Yields-bind _ _
          (leads _
            (Keeps-rollback_from_recovery Ignores-Armed IsSpared-is_silent (λ a cs. refl) _ _ _ _)
            from_Armed)
          (λ _.
            Yields-bind _ _
              (leads _ (Keeps-block_failed Ignores-Armed IsSpared-is_silent _ _ _) from_Armed)
              (λ _. leads _ (Keeps-pure _) from_Armed))))
      from_Armed (same Recoverable)

Keeps-undone : (p : Plan) (s : Transaction) (r : String) → Keeps Recoverable (undone p s r)
unfolding undone
Keeps-undone p s r =
    either_way _
      (Yields-bind _ _ (leads _ (Keeps-fresh _) (same Recoverable)) (λ _.
        Yields-bind _ _ (write_settles _ (same Recoverable) refl)
          (λ _. audit_leads _ _ from_Settled)))
      (same Recoverable) (same Recoverable)

Keeps-rollback_failed :
    (p : Plan) (s : Transaction) (r : String) (e : Exc)
    → Keeps Recoverable (rollback_failed p s r e)
unfolding rollback_failed
Keeps-rollback_failed p s r e =
    either_way _
      (Yields-bind _ _ (leads _ (Keeps-fresh _) (same Recoverable)) (λ _.
        Yields-bind _ _ (write_settles _ (same Recoverable) refl) (λ _.
          Yields-bind _ _ (audit_leads _ _ from_Settled)
            (λ _. leads _ (Keeps-raise _) (same Recoverable)))))
      (same Recoverable) (same Recoverable)

Keeps-finish_undo :
    (p : Plan) (s : Transaction) (r : String) → Keeps Recoverable (finish_undo p s r)
unfolding finish_undo
Keeps-finish_undo p s r = search (keeps_rules, Keeps-undone, Keeps-rollback_failed)

-- The handler always raises.
pub roll_back-raises :
    {A : Type 0} {Q : List Event → Type 0} (p : Plan) (s : Transaction) (e : Exc)
    → Leads Recoverable (roll_back {A = A} p s e) Q
unfolding roll_back
roll_back-raises p s e =
    Yields-bind _ _
      (Yields-keeps _ (search (keeps_rules, Keeps-undo, Keeps-finish_undo, Keeps-rollback_failed)))
      (λ _. Yields-raise _)

Keeps-staged_path :
    {P : List Event → Type 0} (d : String) (c : Component) → Keeps P (staged_path d c)
unfolding staged_path
Keeps-staged_path d c = search read_rules

Keeps-changed_packages : (es : List (String × String)) → Keeps Armed (changed_packages es)
unfolding changed_packages
Keeps-changed_packages [] = search keeps_rules
Keeps-changed_packages ((a, b) ∷ es) =
    Keeps-bind _ _ (Keeps-installed_version Ignores-Armed IsSpared-is_silent.usual a)
      (λ _. Keeps-bind _ _ (Keeps-changed_packages es) (λ _. Keeps-pure _))

choose-arms :
    (p : Plan) (s : Transaction)
    → member s.status interrupted_statuses ≡ true
    → Leads Settled (choose p s) Armed
unfolding choose
choose-arms p s i = Yields-bind _ _ (write_arms s from_Settled i) (λ _.
    leads _
      (search
        (
          read_rules,
          Keeps-audit_event Ignores-Armed IsSpared-is_silent,
          Keeps-staged_path,
          Keeps-changed_packages,
        )
        depth 12)
      from_Armed)

Keeps-install_changed :
    (p : Plan) (w : Work) (c : List String) → Keeps Armed (install_changed p w c)
unfolding install_changed
Keeps-install_changed p w [] = search keeps_rules
Keeps-install_changed p w (pkg ∷ pkgs) = search (
  read_rules,
  Keeps-install_debs Ignores-Armed IsSpared-is_silent (λ a cs. refl),
  Keeps-restart_changed Ignores-Armed IsSpared-is_silent,
)

Keeps-install : (p : Plan) (w : Work) → Keeps Armed (install p w)
unfolding install
Keeps-install p w = Keeps-install_changed p w w.changed

check-arms :
    (p : Plan) (s : Transaction) (w : Work)
    → member s.status interrupted_statuses ≡ true
    → Leads Armed (check p s w) Armed
unfolding check
check-arms p s w i = Yields-bind _ _ (write_arms s from_Armed i) (λ _.
    leads _ (search (read_rules, Keeps-health_check Ignores-Armed IsSpared-is_silent)) from_Armed)

Keeps-accept : (p : Plan) (v : Verdict) → Keeps Armed (accept p v)
unfolding accept
Keeps-accept p v = search (
  read_rules,
  Keeps-cache_candidates Ignores-Armed IsSpared-is_silent,
  Keeps-ensure_dir Ignores-Armed IsSpared-is_silent.usual,
  Keeps-copy Ignores-Armed IsSpared-is_silent.usual,
)

Keeps-clear_staging : (b : Bool) (d : String) → Keeps Confirmed (clear_staging b d)
unfolding clear_staging
Keeps-clear_staging true d = search keeps_rules
Keeps-clear_staging false d =
    search (keeps_rules, Keeps-remove Ignores-Confirmed IsSpared-is_quiet.usual)

confirm-Confirmed :
    (p : Plan) (s : Transaction)
    → text s.status ≡ text "confirmed"
    → Leads Armed (confirm p s) Confirmed
unfolding confirm
confirm-Confirmed p s e = Yields-bind _ _ (write_confirms s from_Armed e) (λ _.
    leads _
      (search
        (
          read_rules,
          Keeps-audit_event Ignores-Confirmed IsSpared-is_quiet,
          Keeps-prune_recovery_points Ignores-Confirmed IsSpared-is_quiet,
          Keeps-clear_staging,
        )
        depth 12)
      from_Confirmed)

finish-Confirmed : (p : Plan) (s : Transaction) (v : Verdict) → Leads Armed (finish p s v) Confirmed
unfolding finish
finish-Confirmed p s v =
    Yields-try _ _ _ (leads _ (Keeps-accept p v) from_Armed)
      (λ _. Yields-bind _ _ (leads _ (Keeps-fresh _) from_Armed) (λ now.
        Yields-try _ _ _ (confirm-Confirmed _ _ refl) (λ _. leads _ (Keeps-pure _) from_Confirmed)
          (λ e. Yields-abort _ e)))
      (λ e. roll_back-raises p s e)

validate-Confirmed :
    (p : Plan) (s : Transaction) (w : Work)
    → member s.status interrupted_statuses ≡ true
    → Leads Armed (validate p s w) Confirmed
unfolding validate
validate-Confirmed p s w i =
    Yields-try _ _ _ (check-arms p s w i) (λ v. finish-Confirmed p _ v)
      (λ e. roll_back-raises p s e)

install_and_validate-Confirmed :
    (p : Plan) (s : Transaction) (w : Work) → Leads Armed (install_and_validate p s w) Confirmed
unfolding install_and_validate
install_and_validate-Confirmed p s w =
    Yields-try _ _ _ (leads _ (Keeps-install p w) from_Armed)
      (λ restarted. validate-Confirmed p _ w refl) (λ e. roll_back-raises p s e)

pub execute-Confirmed :
    (p : Plan) (s : Transaction)
    → member s.status interrupted_statuses ≡ true
    → Leads Settled (execute p s) Confirmed
unfolding execute
execute-Confirmed p s i =
    Yields-try _ _ _ (choose-arms p s i) (λ w. install_and_validate-Confirmed p _ w)
      (λ e. roll_back-raises p s e)

pub Keeps-prepare : (p : Fields) (b : Bool) (m g d t : String) → Keeps Settled (prepare p b m g d t)
unfolding prepare
Keeps-prepare p b m g d t =
    search
      (
        read_rules,
        Keeps-copy_verified_bundle Ignores-Settled IsSpared-is_quiet,
        Keeps-is_blocked,
        Keeps-snapshot_runtime_state Ignores-Settled IsSpared-is_quiet,
        Keeps-create_recovery_point Ignores-Settled IsSpared-is_quiet,
      )
      depth 16
