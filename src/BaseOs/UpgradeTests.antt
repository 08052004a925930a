-- ===== src/BaseOs/UpgradeTests.antt =====
-- A run of the base updater on the sample machine, and the theorems applied to it.
use xaac_thin_client_os.Base.{
  strip_folded, eq_folded, contains, contains_folded, ends_with, words, lines, cut, rstrip_char,
  lstrip_char, strip_char, join_with, distinct, decimal, replace_char, is_space, strip_left, strip,
  push, split_char, stripped_lines, strip_prefix, sorted, ◌∷◌, [], true, ◌≡◌, refl,
}
use xaac_thin_client_os.Machine.{
  pure, raise, gets, ◌>>=◌, try, catch, for_each, traverse, fold, effect, fresh, ask, parts,
  remove_tree, real_path, present, target_of, is_file, is_dir, is_symlink, exists, resolve, read,
  read_text, write_text, load_json, atomic_json, sha256, file_size, make_dir, ensure_dir, copy,
  remove, iterdir, run, run_checked, installed_version, process_running, unit_exists, unit_active,
  dpkg_audit, apt_check, err, World, ok, Result,
}
use xaac_thin_client_os.Update.{
  setting, path_setting, to_int, int_setting, acquire, release, audit_event, holding_lock,
}
use xaac_thin_client_os.BaseOs.Runtime.{
  audit_line, previous_state, write_state, unreadable, os_release, debian_version, architecture,
  acquire_base, exclusive,
}
use xaac_thin_client_os.Machine.{str_value}
use xaac_thin_client_os.BaseOs.Sources.{
  with_size, present_files, globbed, listed_files, source_files, options_of, signed_by_of, entry,
  parse_words, parse_entry, parse_list, field_line, block_fields, block_sources, enabled_sources,
  parse_block, blocks, parse_blocks, parse_text, parse_file,
}
use xaac_thin_client_os.BaseOs.Trust.{
  list_of, text_of, allowed_suite, allowed_of, parse_files, check_source, accept_sources,
  validate_sources, Report,
}
use xaac_thin_client_os.BaseOs.Checks.{
  platform_checks, no_file, command_line, boot_check, sources_check, space_check, package_checks,
  timer_check, timer_checks, preflight,
}
use xaac_thin_client_os.BaseOs.Plan.{
  dpkg_compare, is_kept_up, downgrades, prefix_of, approve, validate_plan,
}
use xaac_thin_client_os.BaseOs.Simulation.{inst_line, remv_line, plan_of, parse_plan}
use xaac_thin_client_os.BaseOs.Check.{
  refresh_indexes, simulate, refresh_if, plan_fingerprint, approved_plan, record_check,
  check_updates, source_status, state_if, base_status,
}
use xaac_thin_client_os.BaseOs.Apply.{
  clear_child, copy_status, sum_line, snapshot_checkpoint, download, install_upgrade, package_check,
  unit_check, executable_check, health_list, absent, health_option, post_health, reapprove, fetch,
  repair_install, install_plan, complete, failed, upgrade, upgrade_if, apply_base_update,
}
use xaac_thin_client_os.Json.{json_eq, Json, obj, fields}
use xaac_thin_client_os.BaseOs.Sample.{base_policy, base_start}
use xaac_thin_client_os.BaseOs.Trust.Trusted.{IsTrusted, validate_sources-IsTrusted}
use xaac_thin_client_os.BaseOs.Apply.Announced.{IsAnnounced, apply_base_update-IsAnnounced}
use xaac_thin_client_os.BaseOs.Apply.Finished.{installs, IsSettled, apply_base_update-IsSettled}
use xaac_thin_client_os.BaseOs.Apply.Reapproved.{IsApprovedTwice, apply_base_update-IsApprovedTwice}

abbrev report : Report
report = record { files = "/etc/apt/sources.list" ∷ []; entries = 1; suites = "trixie" ∷ [] }

abbrev outcome : Result Json
outcome = (apply_base_update base_policy base_start).0

unfoldable returned_json : Result Json → Json
returned_json (ok v) = v
returned_json (err e) = obj (fields [])

-- The sources are accepted; the upgrade returns, and apt was told to install.
base_run :
    ((validate_sources base_policy base_start).0 ≡ ok report)
    × (outcome ≡ ok (returned_json outcome))
    × (installs (apply_base_update base_policy base_start).1.trace ≡ true)
unfolding strip_folded eq_folded contains contains_folded ends_with words lines cut rstrip_char
    lstrip_char strip_char join_with distinct decimal replace_char is_space strip_left strip push
    split_char stripped_lines strip_prefix sorted pure raise gets ◌>>=◌ try catch for_each traverse
    fold effect fresh ask parts remove_tree real_path present target_of is_file is_dir is_symlink
    exists resolve read read_text write_text load_json atomic_json sha256 file_size make_dir
    ensure_dir copy remove iterdir run run_checked installed_version process_running unit_exists
    unit_active dpkg_audit apt_check setting path_setting to_int int_setting acquire release
    audit_event holding_lock audit_line previous_state write_state unreadable os_release
    debian_version architecture str_value acquire_base exclusive with_size present_files globbed
    listed_files source_files options_of signed_by_of entry parse_words parse_entry parse_list
    field_line block_fields block_sources enabled_sources parse_block blocks parse_blocks parse_text
    parse_file list_of text_of allowed_suite allowed_of parse_files check_source accept_sources
    validate_sources platform_checks no_file command_line boot_check sources_check space_check
    package_checks timer_check timer_checks preflight dpkg_compare is_kept_up downgrades prefix_of
    approve validate_plan inst_line remv_line plan_of parse_plan refresh_indexes simulate refresh_if
    plan_fingerprint approved_plan record_check check_updates source_status state_if base_status
    clear_child copy_status sum_line snapshot_checkpoint download install_upgrade package_check
    unit_check executable_check health_list absent health_option post_health reapprove fetch
    repair_install install_plan complete failed upgrade upgrade_if apply_base_update json_eq
    returned_json
base_run = (refl, refl, refl)

state_at_path : (v : World) → path_setting base_policy "outputs" "state" v ≡ (ok "/state", v)
unfolding path_setting setting pure raise ◌>>=◌
state_at_path v = refl

validate_sources-IsTrusted_example : IsTrusted base_policy base_start report
validate_sources-IsTrusted_example =
    validate_sources-IsTrusted base_policy base_start report base_run.0

apply_base_update-IsAnnounced_example :
    IsAnnounced "/state" (apply_base_update base_policy base_start).1.trace
apply_base_update-IsAnnounced_example =
    apply_base_update-IsAnnounced base_policy "/state" base_start state_at_path tt

apply_base_update-IsSettled_example :
    IsSettled "/state" (apply_base_update base_policy base_start).1.trace
apply_base_update-IsSettled_example =
    apply_base_update-IsSettled base_policy "/state" base_start (returned_json outcome)
      state_at_path refl base_run.1

apply_base_update-IsApprovedTwice_example : IsApprovedTwice base_policy base_start
apply_base_update-IsApprovedTwice_example =
    apply_base_update-IsApprovedTwice base_policy base_start refl base_run.2
