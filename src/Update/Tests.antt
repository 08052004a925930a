-- ===== src/Update/Tests.antt =====
-- Runs of the updater on concrete machines, and the theorems applied to them.
use xaac_thin_client_os.Base.{
  if◌then◌else◌, str_eq, pos, true, false, none, some, [], ◌∷◌, ◌≡◌, refl, ◌⊎◌, ◌≤◌, ◌+◌, length,
  arith, replace_char, strip, split_char, stripped_lines, strip_prefix, sorted,
}
use xaac_thin_client_os.Json.{bool, text, obj, fields, json_eq}
use xaac_thin_client_os.Machine.{
  dir, str_value, World, file, blob, ok, err, failure, runtime_error, pure, raise, gets, ◌>>=◌, try,
  for_each, traverse, fold, effect, fresh, ask, parts, remove_tree, real_path, present, target_of,
  is_file, is_dir, is_symlink, exists, resolve, read, load_json, atomic_json, sha256, file_size,
  make_dir, ensure_dir, copy, remove, iterdir, run, run_checked, installed_version, process_running,
  unit_exists, unit_active, dpkg_audit, apt_check,
}
use xaac_thin_client_os.Update.Policy.{
  load_policy, setting, path_setting, to_int, int_setting, acquire, release, audit_event,
  holding_lock,
}
use xaac_thin_client_os.Update.Manifest.{
  unsafe_filename, safe_relative_filename, unsafe_version, safe_version_path_component,
  package_cache_path, required_text, component, manifest_components, release_of, target_os_version,
  set_version, versions_from, expected_versions,
}
use xaac_thin_client_os.Update.Staging.{is_outside, copy_artifact, copy_verified_bundle}
use xaac_thin_client_os.Update.Point.{
  add_member, configuration_members, archive_configuration, validate_tar_member,
  restore_configuration, save_package, copy_current, create_recovery_point,
}
use xaac_thin_client_os.Update.Packages.{
  service_active, snapshot_runtime_state, install_debs, restart_service, stop_client,
  restart_changed,
}
use xaac_thin_client_os.Update.Health.{
  check_package, check_all, executable_of, check_path, check_executable, check_service,
  wait_for_client, check_session, health_check,
}
use xaac_thin_client_os.Update.Registry.{
  read_registry, blocked_registry, packages_of, same_packages, matches, any_entry, blocked_list,
  is_blocked, block_failed,
}
use xaac_thin_client_os.Update.Prune.{
  insert_newest, newest_first, expired, real_dirs, sorted_points, prune_below,
  prune_recovery_points, with_metadata, first_point, latest_recovery_point,
}
use xaac_thin_client_os.Update.Rollback.{
  verified_deb, verify_debs, copy_if, restore_current, rollback_from_recovery,
}
use xaac_thin_client_os.Update.Transaction.{write_transaction_state}
use xaac_thin_client_os.Update.Cache.{keep_cached, cache_candidate, cache_candidates}
use xaac_thin_client_os.Update.Undo.{abort, undo, undone, finish_undo, rollback_failed, roll_back}
use xaac_thin_client_os.Update.Apply.{
  prepare, staged_path, changed_packages, choose, install_changed, install, check, accept,
  clear_staging, confirm, finish, validate, install_and_validate, execute, apply_update,
}
use xaac_thin_client_os.Update.Registry.{empty_registry}
use xaac_thin_client_os.Update.Manifest.{Component}
use xaac_thin_client_os.Update.Transaction.{Transaction}
use xaac_thin_client_os.Update.Manual.{is_interrupted}
use xaac_thin_client_os.Update.Crash.{unsettled, status_of, IsCrashSafe}
use xaac_thin_client_os.Update.Cache.Present.{cache_candidate-FileExists}
use xaac_thin_client_os.Update.Prune.Retention.{expired_lem, occurrences}
use xaac_thin_client_os.Update.Registry.Blocking.{block_failed-is_blocked}
use xaac_thin_client_os.Update.Crash.Safety.{
  apply_update-IsCrashSafe, apply_update-confirmed, apply_update_raises-recoverable,
}
use xaac_thin_client_os.Update.Sample.{policy, manifest, disk, keeping, host, start}

abbrev confirmed_state : Transaction
confirmed_state = record {
  status = "confirmed";
  txid = "txid";
  started_at = "now";
  completed_at = some "now";
  recovery_point = some "/points/txid";
  target_os = text "2";
  changed = "app" ∷ [];
  restarted = [];
  checks =
      (
        "package:app",
        obj (fields (("ok", bool true) ∷ ("expected", text "2") ∷ ("actual", text "2") ∷ [])),
      )
      ∷ ("dpkg_audit", obj (fields (("ok", bool true) ∷ [])))
      ∷ ("apt_check", obj (fields (("ok", bool true) ∷ [])))
      ∷ [];
  last_error = none;
  extra = ("previous_packages", obj (fields (("app", text "1") ∷ []))) ∷ [];
}

updates : (apply_update true "/manifest" "/manifest.asc" "/bundle" start).0 ≡ ok confirmed_state
unfolding replace_char strip split_char stripped_lines strip_prefix sorted pure raise gets ◌>>=◌ try
    for_each traverse fold effect fresh ask parts remove_tree real_path present target_of is_file
    is_dir is_symlink exists resolve read load_json atomic_json sha256 file_size make_dir ensure_dir
    copy remove iterdir run run_checked installed_version process_running unit_exists unit_active
    dpkg_audit apt_check load_policy setting path_setting to_int int_setting acquire release
    audit_event holding_lock unsafe_filename safe_relative_filename unsafe_version
    safe_version_path_component package_cache_path required_text component manifest_components
    release_of target_os_version set_version versions_from expected_versions is_outside
    copy_artifact copy_verified_bundle add_member configuration_members archive_configuration
    validate_tar_member restore_configuration save_package copy_current create_recovery_point
    service_active snapshot_runtime_state install_debs restart_service stop_client restart_changed
    check_package check_all executable_of check_path check_executable check_service wait_for_client
    check_session health_check read_registry blocked_registry packages_of same_packages matches
    any_entry blocked_list is_blocked block_failed insert_newest newest_first expired real_dirs
    sorted_points prune_below prune_recovery_points with_metadata first_point latest_recovery_point
    verified_deb verify_debs copy_if restore_current rollback_from_recovery write_transaction_state
    keep_cached cache_candidate cache_candidates abort undo undone finish_undo rollback_failed
    roll_back prepare staged_path changed_packages choose install_changed install check accept
    clear_staging confirm finish validate install_and_validate execute apply_update json_eq
    str_value
updates = refl

apply_update-IsCrashSafe_example :
    IsCrashSafe (apply_update true "/manifest" "/manifest.asc" "/bundle" start).1.trace
apply_update-IsCrashSafe_example =
    apply_update-IsCrashSafe true "/manifest" "/manifest.asc" "/bundle" start tt refl

apply_update-confirmed_example :
    (status_of (apply_update true "/manifest" "/manifest.asc" "/bundle" start).1.trace
      ≡ text "confirmed")
    × (unsettled (apply_update true "/manifest" "/manifest.asc" "/bundle" start).1.trace ≡ false)
apply_update-confirmed_example =
    apply_update-confirmed true "/manifest" "/manifest.asc" "/bundle" start confirmed_state tt refl
      updates

abbrev cached : World
cached = record { host = record host { exec = keeping }; time = 0; disk = disk; trace = [] }

unsuccessful :
    (apply_update true "/manifest" "/manifest.asc" "/bundle" cached).0
    ≡ err (runtime_error "FileExistsError")
unfolding replace_char strip split_char stripped_lines strip_prefix sorted pure raise gets ◌>>=◌ try
    for_each traverse fold effect fresh ask parts remove_tree real_path present target_of is_file
    is_dir is_symlink exists resolve read load_json atomic_json sha256 file_size make_dir ensure_dir
    copy remove iterdir run run_checked installed_version process_running unit_exists unit_active
    dpkg_audit apt_check load_policy setting path_setting to_int int_setting acquire release
    audit_event holding_lock unsafe_filename safe_relative_filename unsafe_version
    safe_version_path_component package_cache_path required_text component manifest_components
    release_of target_os_version set_version versions_from expected_versions is_outside
    copy_artifact copy_verified_bundle add_member configuration_members archive_configuration
    validate_tar_member restore_configuration save_package copy_current create_recovery_point
    service_active snapshot_runtime_state install_debs restart_service stop_client restart_changed
    check_package check_all executable_of check_path check_executable check_service wait_for_client
    check_session health_check read_registry blocked_registry packages_of same_packages matches
    any_entry blocked_list is_blocked block_failed insert_newest newest_first expired real_dirs
    sorted_points prune_below prune_recovery_points with_metadata first_point latest_recovery_point
    verified_deb verify_debs copy_if restore_current rollback_from_recovery write_transaction_state
    keep_cached cache_candidate cache_candidates abort undo undone finish_undo rollback_failed
    roll_back prepare staged_path changed_packages choose install_changed install check accept
    clear_staging confirm finish validate install_and_validate execute apply_update json_eq
    str_value
unsuccessful = refl

apply_update_raises-recoverable_example :
    (unsettled (apply_update true "/manifest" "/manifest.asc" "/bundle" cached).1.trace ≡ false)
    ⊎ (is_interrupted
          (status_of (apply_update true "/manifest" "/manifest.asc" "/bundle" cached).1.trace)
        ≡ true)
apply_update_raises-recoverable_example =
    apply_update_raises-recoverable true "/manifest" "/manifest.asc" "/bundle" cached
      (runtime_error "FileExistsError") tt refl unsuccessful

abbrev app_component : Component
app_component = record { pkg = "app"; version = "2"; filename = "app.deb"; sha256 = "h" }

cache_candidate-FileExists_example :
    cache_candidate policy "/staging/txid" app_component start
    ≡ (err (failure "FileExistsError"), start)
unfolding path_setting setting ◌>>=◌ pure unsafe_filename parts split_char unsafe_version
cache_candidate-FileExists_example =
    cache_candidate-FileExists policy "/staging/txid" app_component "/cache" "1.deb" (file (blob 1))
      start refl refl refl refl refl

expired_example :
    (occurrences "b" (expired (pos 1) "b" 0 ("a" ∷ "b" ∷ "c" ∷ [])) ≡ 0)
    × (3 ≤ length (expired (pos 1) "b" 0 ("a" ∷ "b" ∷ "c" ∷ [])) + 1 + 1)
expired_example = expired_lem (pos 1) "b" ("a" ∷ "b" ∷ "c" ∷ []) (omega arith)

-- Two points, the later of them listed last.
abbrev two_points : World
two_points = record {
  host = record host { mtime = λ n p. if str_eq p "/points/second" then 2 else 1 };
  time = 0;
  disk =
      ("/points/first", dir)
      ∷ ("/points/first/recovery-point.json", file (blob 1))
      ∷ ("/points/second", dir)
      ∷ ("/points/second/recovery-point.json", file (blob 2))
      ∷ [];
  trace = [];
}

block_failed-is_blocked_example :
    (is_blocked manifest (block_failed manifest "txid" "reason" start).1).0 ≡ ok true
unfolding replace_char strip split_char stripped_lines strip_prefix sorted pure raise gets ◌>>=◌ try
    for_each traverse fold effect fresh ask parts remove_tree real_path present target_of is_file
    is_dir is_symlink exists resolve read load_json atomic_json sha256 file_size make_dir ensure_dir
    copy remove iterdir run run_checked installed_version process_running unit_exists unit_active
    dpkg_audit apt_check load_policy setting path_setting to_int int_setting acquire release
    audit_event holding_lock unsafe_filename safe_relative_filename unsafe_version
    safe_version_path_component package_cache_path required_text component manifest_components
    release_of target_os_version set_version versions_from expected_versions is_outside
    copy_artifact copy_verified_bundle add_member configuration_members archive_configuration
    validate_tar_member restore_configuration save_package copy_current create_recovery_point
    service_active snapshot_runtime_state install_debs restart_service stop_client restart_changed
    check_package check_all executable_of check_path check_executable check_service wait_for_client
    check_session health_check read_registry blocked_registry packages_of same_packages matches
    any_entry blocked_list is_blocked block_failed insert_newest newest_first expired real_dirs
    sorted_points prune_below prune_recovery_points with_metadata first_point latest_recovery_point
    verified_deb verify_debs copy_if restore_current rollback_from_recovery write_transaction_state
    keep_cached cache_candidate cache_candidates abort undo undone finish_undo rollback_failed
    roll_back prepare staged_path changed_packages choose install_changed install check accept
    clear_staging confirm finish validate install_and_validate execute apply_update json_eq
    str_value
block_failed-is_blocked_example =
    block_failed-is_blocked manifest empty_registry "txid" "reason" (text "2") (app_component ∷ [])
      [] start (λ v. refl) (λ v. refl) refl refl refl refl refl (λ n e. refl)
