-- ===== src/Update/Apply.antt =====
-- `apply_update`: the transaction. The statements of its `try` block that the handler tells apart
-- by the values of the variables are a stage each, with the variables as they stand there.
use xaac_thin_client_os.Base.{
  Bool, true, false, String, none, some, List, [], ◌∷◌, not, if◌then◌else◌, sorted,
}
use xaac_thin_client_os.Json.{Fields, null, obj, truthy}
use xaac_thin_client_os.Machine.{
  M, runtime_error, pure, ◌>>=◌, ◌>>◌, raise_if, try, fresh, traverse, join, ensure_dir, copy,
  remove, installed_version,
}
use xaac_thin_client_os.Update.Policy.{
  load_policy, int_setting, setting, acquire, holding_lock, audit_event, current_release_path,
}
use xaac_thin_client_os.Update.Rollback.{versions_json}
use xaac_thin_client_os.Update.Manifest.{
  set_version, Component, manifest_components, target_os_version, safe_relative_filename,
  expected_versions, names, package_names,
}
use xaac_thin_client_os.Update.Staging.{copy_verified_bundle}
use xaac_thin_client_os.Update.Point.{Saved, create_recovery_point}
use xaac_thin_client_os.Update.Packages.{snapshot_runtime_state, install_debs, restart_changed}
use xaac_thin_client_os.Update.Health.{Verdict, is_version, health_check}
use xaac_thin_client_os.Update.Registry.{is_blocked}
use xaac_thin_client_os.Update.Prune.{prune_recovery_points}
use xaac_thin_client_os.Update.Transaction.{Transaction, write_transaction_state}
use xaac_thin_client_os.Update.Cache.{cache_candidates}
use xaac_thin_client_os.Update.Undo.{Plan, abort, roll_back}

-- Up to the recovery point: nothing is installed yet, and the handler has nothing to roll back.
unfoldable pub prepare : Fields → Bool → String → String → String → String → M Plan
prepare policy audit manifest_path signature_path bundle txid = do
  staged ← copy_verified_bundle policy manifest_path signature_path bundle txid
  blocked ← is_blocked staged.manifest
  raise_if blocked
      (runtime_error "Aquesta combinació de versions està bloquejada per una fallada anterior")
  target ← target_os_version staged.manifest
  components ← manifest_components staged.manifest
  before ← snapshot_runtime_state (package_names components)
  point ← create_recovery_point policy txid staged.manifest
  pure (record {
    policy = policy;
    audit = audit;
    staged = staged;
    before = before;
    point = point;
    target = target;
  })

pub record Work : Type 0 where
  pub paths : List String
  pub expected : List (String × String)
  pub changed : List String

unfoldable pub staged_path : String → Component → M String
staged_path staging item = do name ← safe_relative_filename item.filename; pure (join staging name)

unfoldable pub changed_packages : List (String × String) → M (List String)
changed_packages [] = pure []
changed_packages ((pkg, version) ∷ rest) = do
  actual ← installed_version pkg
  others ← changed_packages rest
  pure (if is_version actual version then others else pkg ∷ others)

unfoldable pub choose : Plan → Transaction → M Work
unfolding staged_path
choose p s = do
  write_transaction_state s
  audit_event p.audit "transaction_installing"
  components ← manifest_components p.staged.manifest
  paths ← traverse components (staged_path p.staged.staging)
  let expected = expected_versions components
  changed ← changed_packages expected
  pure (record { paths = paths; expected = expected; changed = changed })

unfoldable pub install_changed : Plan → Work → List String → M (List String)
install_changed p work [] = pure []
install_changed p work (pkg ∷ pkgs) = do
  timeout ← int_setting p.policy "installation" "lock_timeout_seconds"
  install_debs work.paths (names work.expected)
  restart_changed (pkg ∷ pkgs) p.before

unfoldable pub install : Plan → Work → M (List String)
unfolding install_changed
install p work = install_changed p work work.changed

unfoldable pub check : Plan → Transaction → Work → M Verdict
check p s work = do
  write_transaction_state s
  limit ← int_setting p.policy "health" "timeout_seconds"
  health_check work.expected p.before limit

unfoldable pub accept : Plan → Verdict → M (Unit {0})
accept p verdict = do
  raise_if (not verdict.passed) (runtime_error "El health-check de la nova versió ha fallat")
  cache_candidates p.policy p.staged.staging p.staged.manifest
  ensure_dir "/usr/share/xaac/update"
  copy (join p.staged.staging "update-manifest.json") current_release_path

unfoldable pub clear_staging : Bool → String → M (Unit {0})
clear_staging true staging = pure tt
clear_staging false staging = try (remove staging) pure (λ e. pure tt)

-- After `state["status"] = "confirmed"`: an exception here does not roll back.
unfoldable pub confirm : Plan → Transaction → M Transaction
unfolding clear_staging
confirm p s = do
  write_transaction_state s
  audit_event p.audit "transaction_confirmed"
  prune_recovery_points p.policy s.txid
  preserve ← setting p.policy "staging" "preserve_on_success"
  clear_staging (truthy preserve) p.staged.staging
  pure s

-- The stages, each under the handler that its status calls for.
unfoldable pub finish : Plan → Transaction → Verdict → M Transaction
finish p s verdict =
    try (accept p verdict)
      (λ _. do
        now ← fresh (λ h. h.now)
        try (confirm p (record s { status = "confirmed"; completed_at = some now })) pure
            (abort p.audit))
      (roll_back p s)

unfoldable pub validate : Plan → Transaction → Work → M Transaction
validate p s work =
    try (check p s work) (λ verdict. finish p (record s { checks = verdict.checks }) verdict)
      (roll_back p s)

unfoldable pub install_and_validate : Plan → Transaction → Work → M Transaction
install_and_validate p s work =
    try (install p work)
      (λ restarted. validate p (record s { restarted = restarted; status = "validating" }) work)
      (roll_back p s)

unfoldable pub execute : Plan → Transaction → M Transaction
execute p s =
    try (choose p s)
      (λ work. install_and_validate p (record s { changed = sorted work.changed }) work)
      (roll_back p s)

abbrev saved_versions : List (String × String) → List Saved → List (String × String)
saved_versions seen [] = seen
saved_versions seen (s ∷ ss) = saved_versions (set_version s.pkg s.version seen) ss

-- `{item["package"]: item["version"] for item in recovery_meta["packages"]}`
abbrev pub previous_json : List Saved → Fields
previous_json ss = versions_json (saved_versions [] ss)

abbrev pub preparing : String → String → Transaction
preparing txid started = record {
  status = "preparing";
  txid = txid;
  started_at = started;
  completed_at = none;
  recovery_point = none;
  target_os = null;
  changed = [];
  restarted = [];
  checks = [];
  last_error = none;
  extra = [];
}

abbrev pub installing : Transaction → Plan → Transaction
installing s p = record s {
  status = "installing";
  target_os = p.target;
  recovery_point = some p.point.recovery;
  extra = ("previous_packages", obj (previous_json p.point.packages)) ∷ [];
}

unfoldable pub apply_update : Bool → String → String → String → M Transaction
apply_update audit manifest_path signature_path bundle = do
  policy ← load_policy
  acquire
  txid ← fresh (λ h. h.new_id)
  started ← fresh (λ h. h.now)
  write_transaction_state (preparing txid started)
  holding_lock (
      try (prepare policy audit manifest_path signature_path bundle txid)
        (λ p. execute p (installing (preparing txid started) p)) (abort audit))
