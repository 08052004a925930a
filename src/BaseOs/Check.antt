-- ===== src/BaseOs/Check.antt =====
-- `check_updates` and `status`: the simulation, its approval and the files that record it.
use xaac_thin_client_os.Base.{pos, Bool, true, false, not, String, List, [], ◌∷◌, ◌==◌}
use xaac_thin_client_os.Json.{
  Json, Fields, Items, null, bool, num, text, arr, obj, nil, cons, fields, optional_text,
}
use xaac_thin_client_os.Machine.{
  M, runtime_error, pure, gets, ◌>>=◌, ◌>>◌, raise_if, catch, fresh, exists, is_file, run,
  Completed, load_json, atomic_json,
}
use xaac_thin_client_os.Update.{setting, path_setting}
use xaac_thin_client_os.BaseOs.Runtime.{
  plan_path, reboot_path, audit_line, write_state, os_release, debian_version, architecture,
  value_of,
}
use xaac_thin_client_os.BaseOs.Trust.{validate_sources, report_json}
use xaac_thin_client_os.BaseOs.Checks.{Check, preflight, preflight_json, all_ok}
use xaac_thin_client_os.BaseOs.Plan.{Change, Approval, is_new, validate_plan}
use xaac_thin_client_os.BaseOs.Simulation.{parse_plan}

abbrev pub update_command : List String
update_command = "/usr/bin/apt-get" ∷ "-o" ∷ "APT::Update::Error-Mode=any" ∷ "update" ∷ []

unfoldable pub refresh_indexes : M (Unit {0})
refresh_indexes = do
  result ← run update_command
  raise_if (not (result.returncode == 0)) (runtime_error "apt-get update ha fallat")

abbrev pub simulate_command : List String
simulate_command =
    "/usr/bin/apt-get" ∷ "-s" ∷ "-o" ∷ "Debug::NoLocking=true" ∷ "--no-remove" ∷ "--with-new-pkgs"
    ∷ "upgrade" ∷ []

unfoldable pub simulate : M Completed
simulate = run simulate_command

-- `refresh_indexes() if refresh else …`
unfoldable pub refresh_if : Bool → M (Unit {0})
unfolding refresh_indexes
refresh_if true = refresh_indexes
refresh_if false = pure tt

abbrev stable_change : Change → Json
stable_change c = obj (
    fields (
      ("package", text c.pkg)
      ∷ ("installed", optional_text c.installed)
      ∷ ("candidate", text c.candidate)
      ∷ ("new", bool (is_new c))
      ∷ []))

abbrev pub stable_items : List Change → Items
stable_items [] = nil
stable_items (c ∷ cs) = cons (stable_change c) (stable_items cs)

-- `_plan_fingerprint`
unfoldable pub plan_fingerprint : List Change → M String
plan_fingerprint changes = gets (λ w. w.host.digest (arr (stable_items changes)))

abbrev change_json : Change → Json
change_json c = obj (
    fields (
      ("package", text c.pkg)
      ∷ ("base_package", text c.base_package)
      ∷ ("installed", optional_text c.installed)
      ∷ ("candidate", text c.candidate)
      ∷ ("new", bool (is_new c))
      ∷ []))

abbrev change_items : List Change → Items
change_items [] = nil
change_items (c ∷ cs) = cons (change_json c) (change_items cs)

-- The plan as `check_updates` returns it.
pub record Checked : Type 0 where
  pub approval : Approval
  pub fingerprint : String
  pub checked_at : String
  pub preflight_checks : List Check
  pub refreshed : Bool

abbrev pub plan_json : Checked → Json
plan_json c = obj (
    fields (
      ("status", text c.approval.status)
      ∷ ("phase", text "10.6")
      ∷ ("operation", text "apt-get upgrade --with-new-pkgs --no-remove")
      ∷ ("changed_packages", num (pos c.approval.changed_packages))
      ∷ ("new_packages", num (pos c.approval.new_packages))
      ∷ ("removals", num (pos 0))
      ∷ ("reboot_recommended", bool c.approval.reboot_recommended)
      ∷ ("packages", arr (change_items c.approval.packages))
      ∷ ("checked_at", text c.checked_at)
      ∷ ("fingerprint", text c.fingerprint)
      ∷ ("preflight", preflight_json c.preflight_checks)
      ∷ ("apt_update", obj (fields (("ok", bool true) ∷ [])))
      ∷ []))

-- The state that `check_updates` writes.
abbrev checked_state : Checked → Bool → List (String × Json)
checked_state c reboot =
    ("status", text c.approval.status)
    ∷ ("last_check", text c.checked_at)
    ∷ ("available_packages", num (pos c.approval.changed_packages))
    ∷ ("last_plan_fingerprint", text c.fingerprint)
    ∷ ("reboot_required", bool reboot)
    ∷ ("last_error", null)
    ∷ []

-- A simulation that ends well, read and approved.
unfoldable pub approved_plan : Fields → String → M Approval
approved_plan policy why = do
  simulation ← simulate
  raise_if (not (simulation.returncode == 0)) (runtime_error why)
  validate_plan policy (parse_plan simulation.stdout)

-- The files that record a check.
unfoldable pub record_check : Fields → Checked → M (Unit {0})
record_check policy c = do
  atomic_json plan_path (plan_json c)
  reboot ← exists reboot_path
  write_state policy (checked_state c reboot)
  audit_line policy "base_os_check"

unfoldable pub check_updates : Fields → Bool → M Checked
unfolding refresh_if approved_plan record_check
check_updates policy refresh = do
  pre ← preflight policy
  raise_if (not (all_ok pre)) (runtime_error "El preflight del sistema base ha fallat")
  refresh_if refresh
  approval ← approved_plan policy "La simulació APT ha fallat"
  now ← fresh (λ h. h.now)
  fingerprint ← plan_fingerprint approval.packages
  let checked : Checked = record {
    approval = approval;
    fingerprint = fingerprint;
    checked_at = now;
    preflight_checks = pre;
    refreshed = refresh;
  }
  record_check policy checked
  pure checked

unfoldable pub source_status : Fields → M Json
source_status policy =
    catch (do report ← validate_sources policy; pure (report_json report))
      (λ why. pure (obj (fields (("ok", bool false) ∷ ("error", text why) ∷ []))))

unfoldable pub state_if : String → Bool → M Json
state_if path false = pure null
state_if path true = do state ← load_json path; pure (obj state)

unfoldable pub base_status : Fields → M Json
unfolding source_status state_if
base_status policy = do
  path ← path_setting policy "outputs" "state"
  there ← is_file path
  state ← state_if path there
  sources ← source_status policy
  release ← os_release
  version ← debian_version
  machine ← architecture
  suite ← setting policy "platform" "suite"
  reboot ← exists reboot_path
  pure (
      obj (
        fields (
          ("status", text "ok")
          ∷ ("phase", text "10.6")
          ∷ ("os", optional_text (value_of "PRETTY_NAME" release))
          ∷ ("debian_version", text version)
          ∷ ("architecture", text machine)
          ∷ ("suite", suite)
          ∷ ("apt_operation", text "upgrade --with-new-pkgs")
          ∷ ("automatic_updates", bool false)
          ∷ ("automatic_reboot", bool false)
          ∷ ("full_upgrade_allowed", bool false)
          ∷ ("sources", sources)
          ∷ ("reboot_required", bool reboot)
          ∷ ("state", state)
          ∷ [])))
