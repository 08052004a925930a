-- ===== src/Maintenance/Cleanup.antt =====
-- `cleanup`: the retention of diagnostics bundles and of the journal.
use xaac_thin_client_os.Base.{
  ℕ, suc, ◌+◌, ◌*◌, ℤ, pos, negsuc, Bool, true, false, not, String, List, [], ◌∷◌, ◌<>◌, ◌&&◌, ◌==◌,
  ltb, starts_with, ends_with, decimal,
}
use xaac_thin_client_os.Json.{Json, Fields, num, text, obj, set_field}
use xaac_thin_client_os.Machine.{
  M, runtime_error, pure, gets, ◌>>=◌, ◌>>◌, raise_if, fresh, run, exists, is_dir, is_symlink,
  iterdir, join, remove, atomic_json,
}
use xaac_thin_client_os.Update.{int_setting}
use xaac_thin_client_os.Maintenance.Reports.{optional_state, signed_text}

abbrev pub diagnostics_root : String
diagnostics_root = "/var/lib/xaac-maintenance/diagnostics"

abbrev pub maintenance_state_path : String
maintenance_state_path = "/var/lib/xaac-maintenance/state.json"

abbrev pub is_bundle : String → Bool
is_bundle name = starts_with "xaac-diagnostics-" name && ends_with ".tar.gz" name

-- The file is older than the days that are kept: `st_mtime < now - days * 86400`.
abbrev pub is_expired : ℤ → ℕ → ℕ → Bool
is_expired (pos days) now modified = ltb (modified + days * 86400) now
is_expired (negsuc n) now modified = ltb modified (now + suc n * 86400)

unfoldable pub remove_if : Bool → String → M ℕ
remove_if false path = pure 0
remove_if true path = do remove path; pure 1

-- One round of the loop, with the number of files that it removes.
unfoldable pub remove_expired : ℤ → ℕ → String → M ℕ
unfolding remove_if
remove_expired days now name = do
  let path = join diagnostics_root name
  modified ← gets (λ w. w.host.mtime w.time path)
  directory ← is_dir path
  linked ← is_symlink path
  remove_if (is_bundle name && (is_expired days now modified && not (directory && not linked))) path

unfoldable pub remove_each : ℤ → ℕ → List String → M ℕ
unfolding remove_expired
remove_each days now [] = pure 0
remove_each days now (name ∷ rest) = do
  one ← remove_expired days now name
  others ← remove_each days now rest
  pure (one + others)

unfoldable pub remove_below : Bool → ℤ → ℕ → M ℕ
unfolding remove_each
remove_below false days now = pure 0
remove_below true days now = do names ← iterdir diagnostics_root; remove_each days now names

-- `_remove_old_diagnostics`
unfoldable pub remove_old_diagnostics : ℤ → M ℕ
unfolding remove_below
remove_old_diagnostics days = do
  now ← gets (λ w. w.host.seconds w.time)
  there ← exists diagnostics_root
  remove_below there days now

abbrev with_entries : List (String × Json) → Fields → Fields
with_entries [] fs = fs
with_entries ((k, v) ∷ kvs) fs = with_entries kvs (set_field k v fs)

-- The state file, with one more entry of the time.
unfoldable pub record_time : List (String × Json) → String → M (Unit {0})
record_time entries key = do
  state ← optional_state maintenance_state_path
  now ← fresh (λ h. h.now)
  atomic_json maintenance_state_path (
      obj (
        with_entries entries
          (set_field key (text now) (set_field "schema_version" (num (pos 1)) state))))

unfoldable pub cleanup : Fields → M String
unfolding remove_old_diagnostics record_time
cleanup policy = do
  days ← int_setting policy "limits" "diagnostics_retention_days"
  removed ← remove_old_diagnostics days
  journal_days ← int_setting policy "limits" "journal_retention_days"
  journal_bytes ← int_setting policy "limits" "journal_max_bytes"
  journal ← run (
      "/usr/bin/journalctl"
      ∷ ("--vacuum-time=" <> (signed_text journal_days <> "d"))
      ∷ ("--vacuum-size=" <> signed_text journal_bytes)
      ∷ [])
  apt ← run ("/usr/bin/apt-get" ∷ "clean" ∷ [])
  raise_if (not (journal.returncode == 0))
      (runtime_error "No s'ha pogut aplicar la retenció del journal")
  raise_if (not (apt.returncode == 0)) (runtime_error "No s'ha pogut netejar la cache APT")
  record_time [] "last_cleanup_at"
  pure (
      "Neteja completada. Bundles de diagnòstic antics eliminats: "
      <> (decimal removed
          <> ". S'ha aplicat la retenció del journal i s'ha netejat la cache APT.\n"))
