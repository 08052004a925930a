-- ===== src/Update/RecoveryTests.antt =====
-- Recoveries on concrete machines, and the theorems applied to them.
use xaac_thin_client_os.Base.{
  Option, none, true, false, String, none, [], ◌∷◌, ◌≡◌, refl, replace_char, strip, split_char,
  stripped_lines, strip_prefix, sorted,
}
use xaac_thin_client_os.Json.{Json, Fields, text, arr, obj, nil, cons, fields, json_eq}
use xaac_thin_client_os.Machine.{
  str_value, Result, ok, err, World, file, blob, json, ok, err, pure, raise, gets, ◌>>=◌, try,
  for_each, traverse, fold, effect, fresh, ask, parts, remove_tree, real_path, present, target_of,
  is_file, is_dir, is_symlink, exists, resolve, read, load_json, atomic_json, sha256, file_size,
  make_dir, ensure_dir, copy, remove, iterdir, run, run_checked, installed_version, process_running,
  unit_exists, unit_active, dpkg_audit, apt_check,
}
use xaac_thin_client_os.Update.Policy.{
  load_policy, setting, path_setting, to_int, int_setting, acquire, release, audit_event,
  holding_lock,
}
use xaac_thin_client_os.Update.Manifest.{
  unsafe_filename, safe_relative_filename, unsafe_version, safe_version_path_component,
  package_cache_path, required_text, component, manifest_components, release_of, target_os_version,
  set_version, versions_from, expected_versions,
}
use xaac_thin_client_os.Update.Staging.{is_outside, copy_artifact, copy_verified_bundle}
use xaac_thin_client_os.Update.Point.{
  add_member, configuration_members, archive_configuration, validate_tar_member,
  restore_configuration, save_package, copy_current, create_recovery_point,
}
use xaac_thin_client_os.Update.Packages.{
  service_active, snapshot_runtime_state, install_debs, restart_service, stop_client,
  restart_changed,
}
use xaac_thin_client_os.Update.Health.{
  check_package, check_all, executable_of, check_path, check_executable, check_service,
  wait_for_client, check_session, health_check,
}
use xaac_thin_client_os.Update.Registry.{
  read_registry, blocked_registry, packages_of, same_packages, matches, any_entry, blocked_list,
  is_blocked, block_failed,
}
use xaac_thin_client_os.Update.Prune.{
  insert_newest, newest_first, expired, real_dirs, sorted_points, prune_below,
  prune_recovery_points, with_metadata, first_point, latest_recovery_point,
}
use xaac_thin_client_os.Update.Rollback.{
  verified_deb, verify_debs, copy_if, restore_current, rollback_from_recovery,
}
use xaac_thin_client_os.Update.Transaction.{write_transaction_state}
use xaac_thin_client_os.Update.Cache.{keep_cached, cache_candidate, cache_candidates}
use xaac_thin_client_os.Update.Undo.{abort, undo, undone, finish_undo, rollback_failed, roll_back}
use xaac_thin_client_os.Update.Apply.{
  prepare, staged_path, changed_packages, choose, install_changed, install, check, accept,
  clear_staging, confirm, finish, validate, install_and_validate, execute, apply_update,
}
use xaac_thin_client_os.Update.Policy.{state_path}
use xaac_thin_client_os.Update.Manual.{
  metadata_packages, members_of, roll_back_by_hand, manual_rollback, restore_by_hand,
  restore_latest_configuration, recovery_value, recover_from, some_result, recover_if, recover_file,
  recover_interrupted,
}
use xaac_thin_client_os.Update.Sample.{policy, disk, keeping, host}
use xaac_thin_client_os.Update.Manual.Boot.{recover_interrupted_twice}
use xaac_thin_client_os.Update.Rollback.Verified.{rollback_from_recovery-Refuses, Refuses}
use xaac_thin_client_os.Update.Packages.{Before}

abbrev saved_as : String → Json
saved_as deb = obj (
    fields (
      ("package", text "app")
      ∷ ("version", text "1")
      ∷ ("deb", text deb)
      ∷ ("sha256", text "h")
      ∷ []))

abbrev point : String → Fields
point deb = fields (
    ("transaction_id", text "txid")
    ∷ ("packages", arr (cons (saved_as deb) nil))
    ∷ (
      "configuration",
      obj (fields (("archive", text "configuration.tar") ∷ ("sha256", text "h") ∷ [])),
    )
    ∷ [])

-- A machine that was switched off while version 2 was being installed.
abbrev cut_off : String → World
cut_off deb = record {
  host = record host { exec = keeping };
  time = 0;
  disk =
      (
        state_path,
        file (
            json (
              obj (
                fields
                  (("status", text "installing") ∷ ("recovery_point", text "/points/txid") ∷ [])))),
      )
      ∷ ("/points/txid/recovery-point.json", file (json (obj (point deb))))
      ∷ ("/points/txid/configuration.tar", file (blob 3))
      ∷ ("/installed", file (blob 2))
      ∷ disk;
  trace = [];
}

abbrev value : Result (Option Json) → Option Json
value (ok v) = v
value (err e) = none

recovers :
    (recover_interrupted true (cut_off "/cache/app/1.deb")).0
    ≡ ok (value (recover_interrupted true (cut_off "/cache/app/1.deb")).0)
unfolding replace_char strip split_char stripped_lines strip_prefix sorted pure raise gets ◌>>=◌ try
    for_each traverse fold effect fresh ask parts remove_tree real_path present target_of is_file
    is_dir is_symlink exists resolve read load_json atomic_json sha256 file_size make_dir ensure_dir
    copy remove iterdir run run_checked installed_version process_running unit_exists unit_active
    dpkg_audit apt_check load_policy setting path_setting to_int int_setting acquire release
    audit_event holding_lock unsafe_filename safe_relative_filename unsafe_version
    safe_version_path_component package_cache_path required_text component manifest_components
    release_of target_os_version set_version versions_from expected_versions is_outside
    copy_artifact copy_verified_bundle add_member configuration_members archive_configuration
    validate_tar_member restore_configuration save_package copy_current create_recovery_point
    service_active snapshot_runtime_state install_debs restart_service stop_client restart_changed
    check_package check_all executable_of check_path check_executable check_service wait_for_client
    check_session health_check read_registry blocked_registry packages_of same_packages matches
    any_entry blocked_list is_blocked block_failed insert_newest newest_first expired real_dirs
    sorted_points prune_below prune_recovery_points with_metadata first_point latest_recovery_point
    verified_deb verify_debs copy_if restore_current rollback_from_recovery write_transaction_state
    keep_cached cache_candidate cache_candidates abort undo undone finish_undo rollback_failed
    roll_back prepare staged_path changed_packages choose install_changed install check accept
    clear_staging confirm finish validate install_and_validate execute apply_update json_eq
    str_value metadata_packages members_of roll_back_by_hand manual_rollback restore_by_hand
    restore_latest_configuration recovery_value recover_from some_result recover_if recover_file
    recover_interrupted
recovers = refl

recover_interrupted_twice_example :
    recover_interrupted true (recover_interrupted true (cut_off "/cache/app/1.deb")).1
    ≡ (ok none, (recover_interrupted true (cut_off "/cache/app/1.deb")).1)
recover_interrupted_twice_example =
    recover_interrupted_twice true (cut_off "/cache/app/1.deb")
      (value (recover_interrupted true (cut_off "/cache/app/1.deb")).0) recovers

abbrev idle : Before
idle = record { thin_client_running = false; agent_active = false; vpn_manager_active = false }

rollback_from_recovery-Refuses_example :
    Refuses (rollback_from_recovery policy "/points/txid" idle "cause") (cut_off "/cache/gone.deb")
unfolding replace_char strip split_char stripped_lines strip_prefix sorted pure raise gets ◌>>=◌ try
    for_each traverse fold effect fresh ask parts remove_tree real_path present target_of is_file
    is_dir is_symlink exists resolve read load_json atomic_json sha256 file_size make_dir ensure_dir
    copy remove iterdir run run_checked installed_version process_running unit_exists unit_active
    dpkg_audit apt_check load_policy setting path_setting to_int int_setting acquire release
    audit_event holding_lock unsafe_filename safe_relative_filename unsafe_version
    safe_version_path_component package_cache_path required_text component manifest_components
    release_of target_os_version set_version versions_from expected_versions is_outside
    copy_artifact copy_verified_bundle add_member configuration_members archive_configuration
    validate_tar_member restore_configuration save_package copy_current create_recovery_point
    service_active snapshot_runtime_state install_debs restart_service stop_client restart_changed
    check_package check_all executable_of check_path check_executable check_service wait_for_client
    check_session health_check read_registry blocked_registry packages_of same_packages matches
    any_entry blocked_list is_blocked block_failed insert_newest newest_first expired real_dirs
    sorted_points prune_below prune_recovery_points with_metadata first_point latest_recovery_point
    verified_deb verify_debs copy_if restore_current rollback_from_recovery write_transaction_state
    keep_cached cache_candidate cache_candidates abort undo undone finish_undo rollback_failed
    roll_back prepare staged_path changed_packages choose install_changed install check accept
    clear_staging confirm finish validate install_and_validate execute apply_update json_eq
    str_value metadata_packages members_of roll_back_by_hand manual_rollback restore_by_hand
    restore_latest_configuration recovery_value recover_from some_result recover_if recover_file
    recover_interrupted
rollback_from_recovery-Refuses_example =
    rollback_from_recovery-Refuses policy "/points/txid" idle "cause" (cut_off "/cache/gone.deb")
      (point "/cache/gone.deb") (saved_as "/cache/gone.deb" ∷ []) refl refl refl
