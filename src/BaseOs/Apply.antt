-- ===== src/BaseOs/Apply.antt =====
-- `apply_update` of the base system: checkpoint, download, second approval, installation, health.
pub mod Announced
pub mod Finished
pub mod Reapproved
use xaac_thin_client_os.Base.{
  pos, Bool, true, false, not, String, List, [], ◌∷◌, ◌++◌, ◌==◌, ◌&&◌, ◌||◌, ◌<>◌, str_eq, ltb_ℤ,
  if◌then◌else◌,
}
use xaac_thin_client_os.Json.{
  Json, Fields, null, bool, num, text, arr, obj, fields, as_list, optional_text,
}
use xaac_thin_client_os.Machine.{
  M, Exc, runtime_error, failure, pure, raise, gets, or_raise, ◌>>=◌, ◌>>◌, raise_if, when, catch,
  try, fresh, for_each, traverse, join, parts, exists, is_file, is_dir, is_symlink, iterdir,
  ensure_dir, copy, remove, sha256, write_text, run, run_checked, Completed, atomic_json,
  installed_version,
}
use xaac_thin_client_os.Update.{setting, path_setting, int_setting, is_version}
use xaac_thin_client_os.BaseOs.Runtime.{reboot_path, audit_line, write_state, exclusive}
use xaac_thin_client_os.Machine.{str_value}
use xaac_thin_client_os.BaseOs.Sources.{source_files}
use xaac_thin_client_os.BaseOs.Checks.{
  Check, check_items, all_ok, plain, sources_check, package_checks, timer_checks,
}
use xaac_thin_client_os.BaseOs.Plan.{Change, Approval}
use xaac_thin_client_os.BaseOs.Check.{
  Checked, check_updates, approved_plan, plan_fingerprint, plan_json,
}

-- A child of the checkpoint that is neither a file, a link nor a directory is left.
unfoldable pub clear_child : String → M (Unit {0})
clear_child child = do
  regular ← is_file child
  linked ← is_symlink child
  directory ← is_dir child
  when (regular || linked || directory) (remove child)

unfoldable pub copy_status : String → Bool → M (Unit {0})
copy_status root false = pure tt
copy_status root true = copy "/var/lib/dpkg/status" (join root "dpkg-status.before")

unfoldable pub sum_line : String → M String
sum_line path = do digest ← sha256 path; pure (digest <> "  " <> path <> "\n")

abbrev concat_texts : List String → String
concat_texts [] = ""
concat_texts (s ∷ ss) = s <> concat_texts ss

unfoldable pub snapshot_checkpoint : Fields → Checked → M (Unit {0})
unfolding clear_child copy_status sum_line
snapshot_checkpoint policy plan = do
  root ← path_setting policy "outputs" "checkpoint"
  there ← exists root
  linked ← is_symlink root
  raise_if (there && linked) (runtime_error "El checkpoint 10.6 és un enllaç simbòlic")
  ensure_dir root
  children ← iterdir root
  for_each children (λ child. clear_child (join root child))
  known ← is_file "/var/lib/dpkg/status"
  copy_status root known
  versions ← run ("/usr/bin/dpkg-query" ∷ "-W" ∷ "-f=${Package}\t${Version}\n" ∷ [])
  raise_if (not (versions.returncode == 0))
      (runtime_error "No s'ha pogut capturar la llista de versions instal·lades")
  write_text (join root "package-versions.before.tsv") versions.stdout
  files ← source_files
  sums ← traverse files sum_line
  write_text (join root "apt-sources.sha256") (concat_texts sums)
  atomic_json (join root "approved-plan.json") (plan_json plan)

abbrev pub download_command : List String
download_command =
    "/usr/bin/apt-get" ∷ "--yes" ∷ "--download-only" ∷ "--no-remove" ∷ "--with-new-pkgs" ∷ "upgrade"
    ∷ []

unfoldable pub download : M (Unit {0})
download = do run_checked download_command; pure tt

abbrev pub install_command : List String
install_command =
    "/usr/bin/apt-get" ∷ "--yes" ∷ "--no-download" ∷ "--no-remove" ∷ "--with-new-pkgs"
    ∷ "--no-install-recommends" ∷ "-o" ∷ "Dpkg::Options::=--force-confdef" ∷ "-o"
    ∷ "Dpkg::Options::=--force-confold" ∷ "upgrade" ∷ []

-- `_install`
unfoldable pub install_upgrade : M Completed
install_upgrade = run install_command

unfoldable pub package_check : Change → M Check
package_check c = do
  actual ← installed_version c.pkg
  pure (record {
    name = "package:" <> c.pkg;
    ok = is_version actual c.candidate;
    detail = ("expected", text c.candidate) ∷ ("actual", optional_text actual) ∷ [];
  })

-- A unit that `systemctl` is asked about.
unfoldable pub unit_check : String → String → Json → M Check
unit_check prefix verb value = do
  unit ← str_value value
  result ← run ("/usr/bin/systemctl" ∷ verb ∷ unit ∷ [])
  pure (plain (prefix <> unit) (result.returncode == 0))

-- `Path(path).name`
unfoldable pub file_name : List String → String
file_name [] = ""
file_name (name ∷ []) = name
file_name (part ∷ rest) = file_name rest

unfoldable pub executable_check : Json → M Check
executable_check value = do
  path ← str_value value
  there ← is_file path
  runs ← gets (λ w. w.host.executable path)
  pure (plain ("executable:" <> file_name (parts path)) (there && runs))

unfoldable pub health_list : Fields → String → M (List Json)
health_list policy key = do
  value ← setting policy "health" key
  or_raise (as_list value) (failure "TypeError")

-- `policy["health"].get(key, [])`, where the section itself is there
unfoldable pub absent : Exc → M (List Json)
absent (runtime_error s) = raise (runtime_error s)
absent (failure s) = if str_eq s "KeyError" then pure [] else raise (failure s)

unfoldable pub health_option : Fields → String → M (List Json)
unfolding absent
health_option policy key = try (health_list policy key) pure absent

unfoldable pub post_health : Fields → Approval → M (List Check)
unfolding package_check unit_check executable_check health_list health_option
post_health policy plan = do
  sources ← sources_check policy
  packages ← traverse plan.packages package_check
  shared ← package_checks
  required ← health_list policy "required_services"
  services ← traverse required (unit_check "service:" "is-active")
  installed ← health_list policy "installed_services"
  units ← traverse installed (unit_check "installed:" "cat")
  executables ← health_option policy "required_executables"
  runs ← traverse executables executable_check
  timers ← timer_checks
  pure (sources ∷ packages ++ (shared ++ (services ++ (units ++ (runs ++ timers)))))

abbrev pub started_state : String → Checked → List (String × Json)
started_state now plan =
    ("status", text "downloading")
    ∷ ("last_update_started", text now)
    ∷ ("approved_plan_fingerprint", text plan.fingerprint)
    ∷ ("last_error", null)
    ∷ []

-- The second simulation, after the download.
unfoldable pub reapprove : Fields → Checked → M (Unit {0})
reapprove policy plan = do
  second ← approved_plan policy "La reverificació del pla APT ha fallat"
  fingerprint ← plan_fingerprint second.packages
  raise_if (not (str_eq fingerprint plan.fingerprint))
      (runtime_error "El pla APT ha canviat després de la descàrrega")

unfoldable pub fetch : Fields → Checked → M (Unit {0})
unfolding reapprove
fetch policy plan = do
  download
  free ← gets (λ w. w.host.free_bytes w.time)
  minimum ← int_setting policy "policy" "minimum_free_after_download_bytes"
  raise_if (ltb_ℤ (pos free) minimum) (runtime_error "Espai insuficient després de la descàrrega")
  reapprove policy plan

-- After an installation that failed.
unfoldable pub repair_install : Bool → M (Unit {0})
repair_install true = pure tt
repair_install false = do
  repair ← run ("/usr/bin/dpkg" ∷ "--configure" ∷ "-a" ∷ [])
  raise_if (not (repair.returncode == 0))
      (runtime_error "APT ha fallat i dpkg --configure -a no ha pogut reparar")
  checked ← run ("/usr/bin/apt-get" ∷ "-o" ∷ "Debug::NoLocking=true" ∷ "check" ∷ [])
  raise_if (not (checked.returncode == 0))
      (runtime_error "APT ha fallat; apt-get check continua fallant")

unfoldable pub install_plan : Fields → M (Unit {0})
unfolding repair_install
install_plan policy = do
  now ← fresh (λ h. h.now)
  write_state policy (("status", text "installing") ∷ ("install_started", text now) ∷ [])
  result ← install_upgrade
  repair_install (result.returncode == 0)

abbrev health_json : List Check → Json
health_json checks = obj (fields (("checks", arr (check_items checks)) ∷ []))

abbrev completed_state : String → Checked → Bool → List Check → List (String × Json)
completed_state now plan reboot health =
    ("status", text "completed")
    ∷ ("last_update", text now)
    ∷ ("changed_packages", num (pos plan.approval.changed_packages))
    ∷ ("new_packages", num (pos plan.approval.new_packages))
    ∷ ("reboot_required", bool reboot)
    ∷ ("last_error", null)
    ∷ ("health", health_json health)
    ∷ []

abbrev outcome_json : String → Checked → Bool → List Check → Json
outcome_json status plan reboot health = obj (
    fields (
      ("status", text status)
      ∷ ("phase", text "10.6")
      ∷ ("changed_packages", num (pos plan.approval.changed_packages))
      ∷ ("new_packages", num (pos plan.approval.new_packages))
      ∷ ("reboot_required", bool reboot)
      ∷ ("health", health_json health)
      ∷ []))

-- What follows the installation, up to the end of the `try` block.
unfoldable pub complete : Fields → Checked → M Json
complete policy plan = do
  health ← post_health policy plan.approval
  raise_if (not (all_ok health))
      (runtime_error "El health-check posterior a l'actualització del sistema base ha fallat")
  there ← exists reboot_path
  let reboot = there || plan.approval.reboot_recommended
  now ← fresh (λ h. h.now)
  write_state policy (completed_state now plan reboot health)
  audit_line policy "base_os_update_completed"
  run ("/usr/bin/apt-get" ∷ "clean" ∷ [])
  pure (outcome_json "completed" plan reboot health)

-- The `except BaseOsRuntimeError` clause.
unfoldable pub failed : Fields → String → M Json
failed policy why = do
  reboot ← exists reboot_path
  write_state policy (
      ("status", text "failed_requires_recovery")
      ∷ ("last_error", text why)
      ∷ ("reboot_required", bool reboot)
      ∷ [])
  audit_line policy "base_os_update_failed"
  raise (runtime_error why)

unfoldable pub upgrade : Fields → Checked → M Json
unfolding fetch
upgrade policy plan = do
  snapshot_checkpoint policy plan
  now ← fresh (λ h. h.now)
  write_state policy (started_state now plan)
  audit_line policy "base_os_update_started"
  catch (do fetch policy plan; install_plan policy; complete policy plan) (failed policy)

abbrev current_json : Bool → Json
current_json reboot = obj (
    fields (
      ("status", text "current")
      ∷ ("phase", text "10.6")
      ∷ ("changed_packages", num (pos 0))
      ∷ ("reboot_required", bool reboot)
      ∷ []))

unfoldable pub upgrade_if : Fields → Checked → Bool → M Json
unfolding upgrade
upgrade_if policy plan true = do reboot ← exists reboot_path; pure (current_json reboot)
upgrade_if policy plan false = upgrade policy plan

unfoldable pub apply_base_update : Fields → M Json
unfolding upgrade_if
apply_base_update policy = exclusive do
  plan ← check_updates policy true
  upgrade_if policy plan (str_eq plan.approval.status "current")
