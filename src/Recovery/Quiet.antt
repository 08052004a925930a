-- ===== src/Recovery/Quiet.antt =====
-- The calls of the recovery runtime that change nothing, for any property of the effects that
-- ignores theirs.
use xaac_thin_client_os.Base.{
  Bool, true, false, String, Option, none, some, List, [], ◌∷◌, ◌≡◌, str_eq, if◌then◌else◌,
}
use xaac_thin_client_os.Json.{Json, Fields, null, bool, num, text, arr, obj, truthy}
use xaac_thin_client_os.Machine.{
  Event, ran, audited, Exc, runtime_error, failure, Disk, unit_active,
}
use xaac_thin_client_os.Machine.Keeps.{Keeps, keeps_rules, Keeps-elim}
use xaac_thin_client_os.Update.Quiet.{Keeps-setting}
use xaac_thin_client_os.Machine.Quiet.{
  Keeps-str_value, Ignores, Ignores-run, Ignores-effect, look_rules,
}
use xaac_thin_client_os.Update.{real_dirs, with_metadata, sorted_points}
use xaac_thin_client_os.Recovery.Runtime.{
  load_recovery_policy, audit_failed, recovery_audit, recorded, unread, in_recovery_mode,
  require_recovery_mode,
}
use xaac_thin_client_os.Recovery.Report.{
  named_package, package_version, Summary, listed_packages, summary_of, summary_below,
  latest_recovery_summary, root_mount, dpkg_detail, failed_units, state_at_path, state_of_file,
  state_line, reboot_line, created_text, summary_lines, reason_of, status_report,
}
use xaac_thin_client_os.Recovery.Menu.{show_status}

module _ {P : List Event → Type 0} where
  pub Keeps-load_recovery_policy : Keeps P load_recovery_policy
  unfolding load_recovery_policy
  Keeps-load_recovery_policy = search look_rules

  pub Keeps-unread : (e : Exc) → Keeps P (unread e)
  unfolding unread
  Keeps-unread (runtime_error s) = search keeps_rules
  Keeps-unread (failure s) = search keeps_rules

  pub Keeps-in_recovery_mode : Keeps P in_recovery_mode
  unfolding in_recovery_mode
  Keeps-in_recovery_mode = search (look_rules, Keeps-unread)

  pub Keeps-require_recovery_mode : Keeps P require_recovery_mode
  unfolding require_recovery_mode
  Keeps-require_recovery_mode = search (keeps_rules, Keeps-in_recovery_mode)

  Keeps-real_dirs : (r : String) (ns : List String) → Keeps P (real_dirs r ns)
  unfolding real_dirs
  Keeps-real_dirs r [] = search look_rules
  Keeps-real_dirs r (n ∷ ns) = search (look_rules, λ (q : String). Keeps-real_dirs q ns)

  Keeps-with_metadata : (r : String) (ns : List String) → Keeps P (with_metadata r ns)
  unfolding with_metadata
  Keeps-with_metadata r [] = search look_rules
  Keeps-with_metadata r (n ∷ ns) = search (look_rules, λ (q : String). Keeps-with_metadata q ns)

  Keeps-sorted_points : (r : String) (ns : List String) → Keeps P (sorted_points r ns)
  unfolding sorted_points
  Keeps-sorted_points r ns = search keeps_rules

  Keeps-named_package :
      (o : Option String) (v : Json) (vs : List (String × String)) → Keeps P (named_package o v vs)
  unfolding named_package
  Keeps-named_package none v vs = search keeps_rules
  Keeps-named_package (some n) v vs = search (keeps_rules, Keeps-str_value)

  Keeps-package_version : (vs : List (String × String)) (v : Json) → Keeps P (package_version vs v)
  unfolding package_version
  Keeps-package_version vs (obj fs) = Keeps-named_package _ _ vs
  Keeps-package_version vs null = search keeps_rules
  Keeps-package_version vs (bool b) = search keeps_rules
  Keeps-package_version vs (num n) = search keeps_rules
  Keeps-package_version vs (text s) = search keeps_rules
  Keeps-package_version vs (arr xs) = search keeps_rules

  Keeps-listed_packages : (o : Option (List Json)) → Keeps P (listed_packages o)
  unfolding listed_packages
  Keeps-listed_packages none = search keeps_rules
  Keeps-listed_packages (some vs) = search (keeps_rules, Keeps-package_version)

  Keeps-summary_of : (ns : List String) → Keeps P (summary_of ns)
  unfolding summary_of
  Keeps-summary_of [] = search keeps_rules
  Keeps-summary_of (n ∷ ns) = search (look_rules, Keeps-listed_packages)

  Keeps-summary_below : (b : Bool) → Keeps P (summary_below b)
  unfolding summary_below
  Keeps-summary_below false = search keeps_rules
  Keeps-summary_below true =
      search
        (look_rules, Keeps-real_dirs, Keeps-with_metadata, Keeps-sorted_points, Keeps-summary_of)
        depth 14

  Keeps-latest_recovery_summary : Keeps P latest_recovery_summary
  unfolding latest_recovery_summary
  Keeps-latest_recovery_summary = search (look_rules, Keeps-summary_below)

  Keeps-state_at_path : (p : String) (b : Bool) → Keeps P (state_at_path p b)
  unfolding state_at_path
  Keeps-state_at_path p false = search keeps_rules
  Keeps-state_at_path p true = search look_rules

  Keeps-state_of_file : (p : String) → Keeps P (state_of_file p)
  unfolding state_of_file
  Keeps-state_of_file p = search (look_rules, Keeps-state_at_path)

  Keeps-state_line : (l : String) (o : Option Fields) → Keeps P (state_line l o)
  unfolding state_line
  Keeps-state_line l none = search keeps_rules
  Keeps-state_line l (some fs) = search (keeps_rules, Keeps-str_value)

  Keeps-reboot_line : (o : Option Fields) → Keeps P (reboot_line o)
  unfolding reboot_line
  Keeps-reboot_line none = search keeps_rules
  Keeps-reboot_line (some fs) = search look_rules

  Keeps-created_text : (v : Json) → Keeps P (created_text v)
  unfolding created_text
  Keeps-created_text v =
      Keeps-elim (truthy v) _ _ (search (keeps_rules, Keeps-str_value)) (search keeps_rules)

  Keeps-summary_lines : (o : Option Summary) → Keeps P (summary_lines o)
  unfolding summary_lines
  Keeps-summary_lines none = search keeps_rules
  Keeps-summary_lines (some s) = search (keeps_rules, Keeps-str_value, Keeps-created_text)

  Keeps-reason_of : (p : Fields) → Keeps P (reason_of p)
  unfolding reason_of
  Keeps-reason_of p = search (keeps_rules, Keeps-setting, Keeps-str_value)

  pub Keeps-recorded : (b : Bool) → Keeps P (recorded b)
  unfolding recorded
  Keeps-recorded false = search keeps_rules
  Keeps-recorded true = search look_rules

  Keeps-audit_failed : (e : Exc) → Keeps P (audit_failed e)
  unfolding audit_failed
  Keeps-audit_failed e = search keeps_rules

module _ {quiet : Event → Bool} {P : List Event → Type 0} (i : Ignores quiet P) where
  pub Keeps-recovery_audit :
      ((s : String) → quiet (audited s) ≡ true) → (event : String) → Keeps P (recovery_audit event)
  unfolding recovery_audit
  Keeps-recovery_audit q event =
      search
        (
          look_rules,
          Keeps-audit_failed,
          λ (f : Disk → Disk). Ignores-effect i (audited event) f (q event),
        )
        depth 14

-- The commands that only ask: those of `status_report`.
abbrev pub is_question : List String → Bool
is_question (c ∷ a ∷ rest) =
    if str_eq c "/usr/bin/findmnt"
    then true
    else if str_eq c "/usr/bin/dpkg"
    then str_eq a "--audit"
    else if str_eq c "/usr/bin/systemctl"
    then (if str_eq a "--failed" then true else str_eq a "is-active")
    else false
is_question _ = false

abbrev pub is_asked : Event → Bool
is_asked (ran c) = is_question c
is_asked e = false

module _ {P : List Event → Type 0} (i : Ignores is_asked P) where
  Keeps-root_mount : Keeps P root_mount
  unfolding root_mount
  Keeps-root_mount = search (keeps_rules, Ignores-run i)

  Keeps-dpkg_detail : Keeps P dpkg_detail
  unfolding dpkg_detail
  Keeps-dpkg_detail = search (keeps_rules, Ignores-run i)

  Keeps-failed_units : Keeps P failed_units
  unfolding failed_units
  Keeps-failed_units = search (keeps_rules, Ignores-run i)

  Keeps-unit_active : (u : String) → Keeps P (unit_active u)
  unfolding unit_active
  Keeps-unit_active u = search (keeps_rules, Ignores-run i)

  Keeps-status_report : (p : Fields) → Keeps P (status_report p)
  unfolding status_report
  Keeps-status_report p =
      search
        (
          look_rules, Keeps-root_mount, Keeps-dpkg_detail, Keeps-failed_units, Keeps-unit_active,
          Keeps-latest_recovery_summary, Keeps-setting, Keeps-str_value, Keeps-state_of_file,
          Keeps-in_recovery_mode, Keeps-reason_of, Keeps-state_line, Keeps-reboot_line,
          Keeps-summary_lines,
        )
        depth 30

  pub Keeps-show_status : Keeps P show_status
  unfolding show_status
  Keeps-show_status = search (keeps_rules, Keeps-load_recovery_policy, Keeps-status_report)
