-- ===== src/Maintenance/Diagnostics.antt =====
-- `diagnostics`: a bundle of the reports, put together in a directory of its own.
use xaac_thin_client_os.Base.{
  ℕ, ◌+◌, pos, Bool, true, false, not, String, List, [], ◌∷◌, ◌<>◌, ◌||◌, ◌&&◌, ltb_ℤ, sorted,
}
use xaac_thin_client_os.Json.{
  Json, Fields, bool, num, text, arr, obj, items, fields, as_list, optional_text, set_field,
}
use xaac_thin_client_os.Machine.{
  M, runtime_error, failure, pure, raise, gets, or_raise, ◌>>=◌, ◌>>◌, raise_if, try, fresh,
  for_each, traverse, effect, archived, made_dir, file, dir, put, run, read_text, write_text,
  is_file, is_symlink, exists, ensure_dir, iterdir, join, file_size, remove,
}
use xaac_thin_client_os.Update.{setting, int_setting}
use xaac_thin_client_os.Maintenance.Patterns.{sanitize_text}
use xaac_thin_client_os.Maintenance.Runtime.{release_names, package_version_text, unless_missing}
use xaac_thin_client_os.Maintenance.Reports.{
  component_packages, release_value, maintenance_status, network_report, storage_report,
  services_report, logs_report,
}
use xaac_thin_client_os.Maintenance.Health.{health_report}
use xaac_thin_client_os.Maintenance.Cleanup.{diagnostics_root, record_time}

abbrev pub update_state_names : List String
update_state_names =
    "state.json" ∷ "transaction-state.json" ∷ "rollback-state.json" ∷ "base-os-state.json" ∷ []

-- `_write_report`
unfoldable pub write_report : String → String → M (Unit {0})
write_report path content = do
  unsafe ← is_symlink path
  raise_if unsafe (runtime_error "Destinació insegura")
  write_text path (sanitize_text content)

-- `_write_json_report`
unfoldable pub write_json_report : String → Fields → M (Unit {0})
write_json_report path payload = do
  unsafe ← is_symlink path
  raise_if unsafe (runtime_error "Destinació insegura")
  content ← gets (λ w. w.host.dumps (obj payload))
  write_text path (content <> "\n")

unfoldable pub state_file_text : String → Bool → M String
unfolding unless_missing
state_file_text path false = pure "absent\n"
state_file_text path true =
    try (read_text path) (λ raw. pure (sanitize_text raw)) (unless_missing "no llegible\n")

-- `_safe_update_state_text`
unfoldable pub safe_update_state_text : String → M String
unfolding state_file_text
safe_update_state_text path = do
  there ← is_file path
  linked ← is_symlink path
  state_file_text path (there && not linked)

unfoldable pub write_update_state : String → String → M (Unit {0})
unfolding safe_update_state_text
write_update_state build name = do
  content ← safe_update_state_text ("/var/lib/xaac-update/" <> name)
  write_report (join build ("update-" <> name)) content

unfoldable pub component_version : String → M (String × Json)
component_version name = do version ← package_version_text name; pure (name, text version)

abbrev privacy : Json
privacy = obj (
    fields (
      ("sanitized", bool true)
      ∷ ("configuration_contents_included", bool false)
      ∷ ("credentials_included", bool false)
      ∷ ("private_keys_included", bool false)
      ∷ ("vpn_secrets_included", bool false)
      ∷ []))

-- `_diagnostic_manifest`
unfoldable pub diagnostic_manifest : Fields → M Fields
unfolding component_version
diagnostic_manifest policy = do
  names ← release_names
  created ← fresh (λ h. h.now)
  kernel ← gets (λ w. w.host.kernel)
  components ← traverse component_packages component_version
  value ← setting policy "privacy" "forbidden_paths"
  excluded ← or_raise (as_list value) (failure "TypeError")
  pure (
      fields (
        ("schema_version", num (pos 1))
        ∷ ("bundle", text "xaac-diagnostics")
        ∷ ("created_at", text created)
        ∷ ("os_version", optional_text (release_value "VERSION_ID" names))
        ∷ ("kernel", text kernel)
        ∷ ("components", obj (fields components))
        ∷ ("privacy", privacy)
        ∷ ("excluded_sensitive_paths", arr (items excluded))
        ∷ []))

-- `_write_report(path, report(policy))`
abbrev pub write_report_of : String → M String → M (Unit {0})
write_report_of path report = do content ← report; write_report path content

-- The reports that follow the one on the health.
unfoldable pub write_other_reports : Fields → String → M (Unit {0})
unfolding write_report write_update_state
write_other_reports policy build = do
  write_report_of (join build "network.txt") network_report
  write_report_of (join build "storage.txt") storage_report
  write_report_of (join build "services.txt") (services_report policy)
  write_report_of (join build "logs.txt") (logs_report policy)
  dpkg ← run ("/usr/bin/dpkg" ∷ "--audit" ∷ [])
  write_report (join build "dpkg-audit.txt") (dpkg.stdout <> dpkg.stderr)
  for_each update_state_names (write_update_state build)

unfoldable pub write_reports : Fields → String → M (Unit {0})
unfolding write_other_reports write_json_report diagnostic_manifest
write_reports policy build = do
  write_report_of (join build "status.txt") maintenance_status
  (health, overall) ← health_report policy
  write_report (join build "health.txt") health
  write_other_reports policy build
  manifest ← diagnostic_manifest policy
  write_json_report (join build "manifest.json") (set_field "health" (text overall) manifest)

unfoldable pub size_if : Bool → String → M ℕ
size_if false path = pure 0
size_if true path = file_size path

unfoldable pub total_size : String → List String → M ℕ
unfolding size_if
total_size build [] = pure 0
total_size build (name ∷ rest) = do
  there ← is_file (join build name)
  linked ← is_symlink (join build name)
  one ← size_if (there && not linked) (join build name)
  others ← total_size build rest
  pure (one + others)

unfoldable pub check_member : String → String → M (Unit {0})
check_member build name = do
  linked ← is_symlink (join build name)
  there ← is_file (join build name)
  raise_if (linked || not there) (runtime_error "Element insegur al bundle")

-- The archive is there from its opening on, and complete when it is closed.
unfoldable pub archive_members : String → String → M (Unit {0})
unfolding check_member
archive_members build destination = do
  opened ← gets (λ w. w.host.pack [] w.disk)
  effect (archived destination) (put destination (file opened))
  names ← iterdir build
  for_each (sorted names) (check_member build)
  closed ← gets (λ w. w.host.pack (sorted names) w.disk)
  effect (archived destination) (put destination (file closed))

unfoldable pub refuse_large : Bool → String → M (Unit {0})
refuse_large false destination = pure tt
refuse_large true destination = do
  remove destination
  raise (runtime_error "El bundle comprimit supera la mida màxima")

-- The body of the `try` statement.
unfoldable pub bundle : Fields → String → String → M String
unfolding write_reports total_size archive_members refuse_large record_time
bundle policy build destination = do
  write_reports policy build
  maximum ← int_setting policy "limits" "diagnostics_max_bytes"
  names ← iterdir build
  total ← total_size build names
  raise_if (ltb_ℤ maximum (pos total))
      (runtime_error "Les dades de diagnòstic superen la mida màxima")
  archive_members build destination
  size ← file_size destination
  refuse_large (ltb_ℤ maximum (pos size)) destination
  record_time (("last_diagnostics_bundle", text destination) ∷ []) "last_diagnostics_at"
  pure destination

-- `shutil.rmtree(path, ignore_errors=True)`
unfoldable pub discard : String → M (Unit {0})
discard path = try (remove path) pure (λ e. pure tt)

-- `try: m` with `finally: shutil.rmtree(build, ignore_errors=True)`
unfoldable pub discarding : {A : Type 0} → String → M A → M A
unfolding discard
discarding build m = try m (λ a. do discard build; pure a) (λ e. do discard build; raise e)

-- `tempfile.mkdtemp`
unfoldable pub make_build_dir : M String
make_build_dir = do
  id ← fresh (λ h. h.new_id)
  let build = join diagnostics_root (".xaac-diagnostics-" <> id)
  effect (made_dir build) (put build dir)
  pure build

unfoldable pub diagnostics : Fields → M String
unfolding make_build_dir bundle discarding
diagnostics policy = do
  ensure_dir diagnostics_root
  build ← make_build_dir
  timestamp ← fresh (λ h. h.now)
  let destination = join diagnostics_root ("xaac-diagnostics-" <> (timestamp <> ".tar.gz"))
  there ← exists destination
  linked ← is_symlink destination
  raise_if (there || linked) (runtime_error "El bundle ja existeix")
  discarding build (bundle policy build destination)
