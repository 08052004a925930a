-- ===== src/Update/Rollback.antt =====
-- `_rollback_from_recovery`: every saved package is hashed before the first is installed.
pub mod Verified
use xaac_thin_client_os.Base.{
  Bool, true, false, pos, String, Option, none, some, List, [], ◌∷◌, ◌<>◌, ◌++◌, not, str_eq,
}
use xaac_thin_client_os.Json.{
  Json, Fields, null, num, text, obj, field, fields, texts, get, as_obj, as_list, as_text, json_eq,
}
use xaac_thin_client_os.Machine.{
  M, runtime_error, pure, or_raise, ◌>>=◌, ◌>>◌, raise_if, when, fresh, join, is_file, is_symlink,
  sha256, load_json, atomic_json, copy, ensure_dir, str_value,
}
use xaac_thin_client_os.Update.Policy.{int_setting, current_release_path, rollback_state_path}
use xaac_thin_client_os.Update.Manifest.{set_version, names}
use xaac_thin_client_os.Update.Point.{restore_configuration}
use xaac_thin_client_os.Update.Packages.{Before, install_debs, restart_changed}
use xaac_thin_client_os.Update.Health.{health_check}

-- `debs` and `expected` of the loop over the saved packages.
pub record Restore : Type 0 where
  pub debs : List String
  pub versions : List (String × String)

unfoldable pub verified_deb : Fields → M (String × (String × String))
verified_deb item = do
  path ← str_value (get "deb" item)
  there ← is_file path
  raise_if (not there) (runtime_error "Paquet de rollback absent o corrupte")
  linked ← is_symlink path
  raise_if linked (runtime_error "Paquet de rollback absent o corrupte")
  digest ←
      or_raise (as_text (get "sha256" item)) (runtime_error "Paquet de rollback absent o corrupte")
  actual ← sha256 path
  raise_if (not (str_eq actual digest)) (runtime_error "Paquet de rollback absent o corrupte")
  pkg ← str_value (get "package" item)
  version ← str_value (get "version" item)
  pure (path, (pkg, version))

unfoldable pub verify_debs : List Json → Restore → M Restore
verify_debs [] acc = pure acc
verify_debs (value ∷ rest) acc = do
  item ← or_raise (as_obj value) (runtime_error "Metadades de rollback invàlides")
  found ← verified_deb item
  verify_debs rest (record {
    debs = acc.debs ++ found.0 ∷ [];
    versions = set_version found.1.0 found.1.1 acc.versions;
  })

abbrev pub nonempty : Option (List Json) → Option (List Json)
nonempty (some (x ∷ xs)) = some (x ∷ xs)
nonempty _ = none

abbrev pub versions_json : List (String × String) → Fields
versions_json [] = fields []
versions_json ((pkg, version) ∷ rest) = field pkg (text version) (versions_json rest)

unfoldable pub copy_if : Bool → String → Json → M (Unit {0})
copy_if false source digest = pure tt
copy_if true source digest = do
  actual ← sha256 source
  when (json_eq (text actual) digest)
      do ensure_dir "/usr/share/xaac/update"; copy source current_release_path

unfoldable pub restore_current : String → Option Fields → M (Unit {0})
unfolding copy_if
restore_current recovery none = pure tt
restore_current recovery (some current) = do
  name ← str_value (get "file" current)
  let source = join recovery name
  there ← is_file source
  copy_if there source (get "sha256" current)

unfoldable pub rollback_from_recovery : Fields → String → Before → String → M Json
unfolding restore_current
rollback_from_recovery policy recovery before cause = do
  metadata ← load_json (recovery <> "/recovery-point.json")
  packages ←
      or_raise (nonempty (as_list (get "packages" metadata)))
        (runtime_error "Punt de recuperació sense paquets")
  restore ← verify_debs packages (record { debs = []; versions = [] })
  timeout ← int_setting policy "installation" "lock_timeout_seconds"
  install_debs restore.debs (names restore.versions)
  configuration ←
      or_raise (as_obj (get "configuration" metadata))
        (runtime_error "Punt de recuperació sense configuració")
  restore_configuration recovery configuration
  restarted ← restart_changed (names restore.versions) before
  limit ← int_setting policy "health" "timeout_seconds"
  verdict ← health_check restore.versions before limit
  raise_if (not verdict.passed) (runtime_error "El health-check posterior al rollback ha fallat")
  restore_current recovery (as_obj (get "current_release" metadata))
  now ← fresh (λ h. h.now)
  let state = obj (
      fields (
        ("schema_version", num (pos 2))
        ∷ ("status", text "rolled_back")
        ∷ ("transaction_id", get "transaction_id" metadata)
        ∷ ("completed_at", text now)
        ∷ ("cause", text cause)
        ∷ ("restored_packages", obj (versions_json restore.versions))
        ∷ ("restarted", texts restarted)
        ∷ ("checks", obj (fields verdict.checks))
        ∷ ("last_error", null)
        ∷ []))
  atomic_json rollback_state_path state
  pure state
