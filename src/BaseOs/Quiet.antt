-- ===== src/BaseOs/Quiet.antt =====
-- What the base updater does without installing: each function keeps whatever property of the
-- effects looks at the installing command alone.
use xaac_thin_client_os.Base.{
  Bool, true, false, not, String, Option, none, some, List, [], ◌∷◌, refl, str_eq, ◌&&◌,
}
use xaac_thin_client_os.Json.{Json, Fields, text}
use xaac_thin_client_os.Machine.{Event, ran, wrote, audited, write_text, Disk}
use xaac_thin_client_os.Machine.Keeps.{Keeps, keeps_rules, Keeps-pure, Keeps-bind}
use xaac_thin_client_os.Machine.Quiet.{
  Ignores, Ignores-run, Ignores-run_checked, Ignores-effect, IsUsual, look_rules, Keeps-atomic_json,
  Keeps-ensure_dir, Keeps-copy, Keeps-remove, Keeps-installed_version, Keeps-dpkg_audit,
  Keeps-apt_check,
}
use xaac_thin_client_os.BaseOs.Runtime.{audit_line, write_state, architecture}
use xaac_thin_client_os.BaseOs.Checks.{
  platform_checks, package_checks, timer_check, timer_checks, preflight,
}
use xaac_thin_client_os.BaseOs.Plan.{
  Change, Plan, Approval, dpkg_compare, is_kept_up, downgrades, validate_plan,
}
use xaac_thin_client_os.BaseOs.Check.{
  update_command, refresh_indexes, simulate, refresh_if, approved_plan, record_check, check_updates,
  Checked,
}
use xaac_thin_client_os.BaseOs.Apply.{
  clear_child, copy_status, sum_line, snapshot_checkpoint, download, download_command,
  install_command, package_check, unit_check, post_health, reapprove, fetch, repair_install,
  complete, failed,
}
use xaac_thin_client_os.BaseOs.Looks.{
  Keeps-os_release, Keeps-debian_version, Keeps-source_files, Keeps-boot_check, Keeps-sources_check,
  Keeps-space_check, Keeps-previous_state, Keeps-approve, Keeps-plan_fingerprint, Keeps-health_list,
  Keeps-health_option, Keeps-executable_check,
}
use xaac_thin_client_os.Update.Quiet.{Keeps-setting, Keeps-path_setting, Keeps-int_setting}
use xaac_thin_client_os.Machine.Quiet.{Keeps-str_value}

abbrev command_eq : List String → List String → Bool
command_eq [] [] = true
command_eq (a ∷ as_) (b ∷ bs) = str_eq a b && command_eq as_ bs
command_eq _ _ = false

-- apt changes installed packages.
abbrev pub is_install : Event → Bool
is_install (ran c) = command_eq c install_command
is_install _ = false

abbrev pub is_other : Event → Bool
is_other e = not (is_install e)

IsUsual-is_other : IsUsual is_other
IsUsual-is_other = record {
  made_dir_lem = λ p. refl;
  copied_lem = λ p q. refl;
  removed_lem = λ p. refl;
  query_lem = λ c cs. refl;
  pgrep_lem = λ c cs. refl;
  systemctl_lem = λ c cs. refl;
  audit_lem = refl;
  check_lem = refl;
}

module _ {P : List Event → Type 0} (i : Ignores is_other P) where
  Keeps-write_text : (p s : String) → Keeps P (write_text p s)
  unfolding write_text
  Keeps-write_text p s =
      search (keeps_rules, λ (f : Disk → Disk). Ignores-effect i (wrote p (text s)) f refl)

  pub Keeps-audit_line : (p : Fields) (s : String) → Keeps P (audit_line p s)
  unfolding audit_line
  Keeps-audit_line p s =
      search
        (keeps_rules, Keeps-path_setting, λ (f : Disk → Disk). Ignores-effect i (audited s) f refl)
        depth 14

  pub Keeps-write_state : (p : Fields) (kvs : List (String × Json)) → Keeps P (write_state p kvs)
  unfolding write_state
  Keeps-write_state p kvs =
      search
        (
          look_rules,
          Keeps-path_setting,
          Keeps-previous_state,
          λ (q : String) (v : Json). Keeps-atomic_json i q v refl,
        )
        depth 14

  Keeps-architecture : Keeps P architecture
  unfolding architecture
  Keeps-architecture = search (keeps_rules, Ignores-run i) depth 14

  Keeps-platform_checks : (p : Fields) → Keeps P (platform_checks p)
  unfolding platform_checks
  Keeps-platform_checks p =
      search
        (
          keeps_rules, Keeps-os_release, Keeps-debian_version, Keeps-architecture, Keeps-setting,
          Keeps-str_value,
        )
        depth 18

  pub Keeps-package_checks : Keeps P package_checks
  unfolding package_checks
  Keeps-package_checks =
      search (keeps_rules, Keeps-dpkg_audit i IsUsual-is_other, Keeps-apt_check i IsUsual-is_other)

  Keeps-timer_check : (t : String) → Keeps P (timer_check t)
  unfolding timer_check
  Keeps-timer_check t = search (keeps_rules, Ignores-run i)

  pub Keeps-timer_checks : Keeps P timer_checks
  unfolding timer_checks
  Keeps-timer_checks = search (keeps_rules, Keeps-timer_check)

  Keeps-preflight : (p : Fields) → Keeps P (preflight p)
  unfolding preflight
  Keeps-preflight p =
      search
        (
          keeps_rules, Keeps-platform_checks, Keeps-boot_check, Keeps-sources_check,
          Keeps-space_check, Keeps-package_checks, Keeps-timer_checks,
        )
        depth 18

  Keeps-refresh_if : (b : Bool) → Keeps P (refresh_if b)
  unfolding refresh_if refresh_indexes
  Keeps-refresh_if true = search (keeps_rules, Ignores-run i update_command refl)
  Keeps-refresh_if false = search keeps_rules

  Keeps-dpkg_compare : (a r b : String) → Keeps P (dpkg_compare a r b)
  unfolding dpkg_compare
  Keeps-dpkg_compare a r b = search (keeps_rules, Ignores-run i)

  Keeps-is_kept_up : (c : Change) (o : Option String) → Keeps P (is_kept_up c o)
  unfolding is_kept_up
  Keeps-is_kept_up c none = search keeps_rules
  Keeps-is_kept_up c (some v) = Keeps-dpkg_compare _ _ v

  Keeps-downgrades : (cs : List Change) → Keeps P (downgrades cs)
  unfolding downgrades
  Keeps-downgrades [] = search keeps_rules
  Keeps-downgrades (c ∷ cs) =
      Keeps-bind _ _ (Keeps-is_kept_up c _)
        (λ one. Keeps-bind _ _ (Keeps-downgrades cs) (λ others. Keeps-pure _))

  Keeps-validate_plan : (p : Fields) (q : Plan) → Keeps P (validate_plan p q)
  unfolding validate_plan
  Keeps-validate_plan p q =
      search (keeps_rules, Keeps-int_setting, Keeps-setting, Keeps-downgrades, Keeps-approve) depth
        22

  Keeps-approved_plan : (p : Fields) (s : String) → Keeps P (approved_plan p s)
  unfolding approved_plan simulate
  Keeps-approved_plan p s = search (keeps_rules, Ignores-run i, Keeps-validate_plan) depth 14

  Keeps-record_check : (p : Fields) (c : Checked) → Keeps P (record_check p c)
  unfolding record_check
  Keeps-record_check p c =
      search
        (
          look_rules,
          λ (q : String) (v : Json). Keeps-atomic_json i q v refl,
          Keeps-write_state,
          Keeps-audit_line,
        )
        depth 14

  pub Keeps-check_updates : (p : Fields) (b : Bool) → Keeps P (check_updates p b)
  unfolding check_updates
  Keeps-check_updates p b =
      search
        (
          keeps_rules, Keeps-preflight, Keeps-refresh_if, Keeps-approved_plan,
          Keeps-plan_fingerprint, Keeps-record_check,
        )
        depth 18

  Keeps-clear_child : (c : String) → Keeps P (clear_child c)
  unfolding clear_child
  Keeps-clear_child c = search (look_rules, Keeps-remove i IsUsual-is_other) depth 14

  Keeps-copy_status : (r : String) (b : Bool) → Keeps P (copy_status r b)
  unfolding copy_status
  Keeps-copy_status r false = search keeps_rules
  Keeps-copy_status r true = Keeps-copy i IsUsual-is_other _ _

  Keeps-sum_line : (p : String) → Keeps P (sum_line p)
  unfolding sum_line
  Keeps-sum_line p = search look_rules

  pub Keeps-snapshot_checkpoint : (p : Fields) (c : Checked) → Keeps P (snapshot_checkpoint p c)
  unfolding snapshot_checkpoint
  Keeps-snapshot_checkpoint p c =
      search
        (
          look_rules,
          Keeps-path_setting,
          Keeps-ensure_dir i IsUsual-is_other,
          Keeps-clear_child,
          Keeps-copy_status,
          Ignores-run i,
          Keeps-write_text,
          Keeps-source_files,
          Keeps-sum_line,
          λ (q : String) (v : Json). Keeps-atomic_json i q v refl,
        )
        depth 30

  Keeps-download : Keeps P download
  unfolding download
  Keeps-download = search (keeps_rules, Ignores-run_checked i download_command refl)

  Keeps-reapprove : (p : Fields) (c : Checked) → Keeps P (reapprove p c)
  unfolding reapprove
  Keeps-reapprove p c = search (keeps_rules, Keeps-approved_plan, Keeps-plan_fingerprint) depth 14

  pub Keeps-fetch : (p : Fields) (c : Checked) → Keeps P (fetch p c)
  unfolding fetch
  Keeps-fetch p c =
      search (keeps_rules, Keeps-download, Keeps-int_setting, Keeps-reapprove) depth 16

  pub Keeps-repair_install : (b : Bool) → Keeps P (repair_install b)
  unfolding repair_install
  Keeps-repair_install true = search keeps_rules
  Keeps-repair_install false = search (keeps_rules, Ignores-run i) depth 14

  Keeps-package_check : (c : Change) → Keeps P (package_check c)
  unfolding package_check
  Keeps-package_check c = search (keeps_rules, Keeps-installed_version i IsUsual-is_other)

  Keeps-unit_check : (p v : String) (u : Json) → Keeps P (unit_check p v u)
  unfolding unit_check
  Keeps-unit_check p v u = search (keeps_rules, Keeps-str_value, Ignores-run i) depth 14

  Keeps-post_health : (p : Fields) (a : Approval) → Keeps P (post_health p a)
  unfolding post_health
  Keeps-post_health p a =
      search
        (
          keeps_rules, Keeps-sources_check, Keeps-package_check, Keeps-package_checks,
          Keeps-health_list, Keeps-unit_check, Keeps-health_option, Keeps-executable_check,
          Keeps-timer_checks,
        )
        depth 30

  pub Keeps-complete : (p : Fields) (c : Checked) → Keeps P (complete p c)
  unfolding complete
  Keeps-complete p c =
      search (look_rules, Keeps-post_health, Keeps-write_state, Keeps-audit_line, Ignores-run i)
        depth 22

  pub Keeps-failed : (p : Fields) (s : String) → Keeps P (failed p s)
  unfolding failed
  Keeps-failed p s = search (look_rules, Keeps-write_state, Keeps-audit_line) depth 14
