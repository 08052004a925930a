-- ===== src/Recovery/Report.antt =====
-- `status_report`: what the recovery runtime shows of the machine.
use xaac_thin_client_os.Base.{
  ℕ, zero, suc, Bool, true, false, not, String, Option, none, some, List, [], ◌∷◌, ◌++◌, ◌||◌, ◌&&◌,
  ◌<>◌, ◌==◌, map, str_eq, is_empty, strip, sorted, distinct, join_with, split_char, if◌then◌else◌,
}
use xaac_thin_client_os.Json.{
  Json, Fields, text, obj, fields, get, lookup, as_list, as_text, truthy,
}
use xaac_thin_client_os.Machine.{
  M, pure, ◌>>=◌, catch, fold, load_json, is_file, is_dir, is_symlink, exists, iterdir, join, run,
  unit_active, str_value,
}
use xaac_thin_client_os.Update.{setting, real_dirs, with_metadata, sorted_points}
use xaac_thin_client_os.Recovery.Runtime.{in_recovery_mode}

abbrev points_root : String
points_root = "/var/lib/xaac-update/recovery-points"

unfoldable pub named_package :
    Option String → Json → List (String × String) → M (List (String × String))
named_package none version versions = pure versions
named_package (some name) version versions = do
  value ← str_value version
  pure ((name, value) ∷ versions)

-- The latest assignment of a name comes first.
unfoldable pub package_version : List (String × String) → Json → M (List (String × String))
unfolding named_package
package_version versions (obj item) =
    named_package (as_text (get "package" item)) (get "version" item) versions
package_version versions _ = pure versions

-- The dict that `_latest_recovery_summary` returns.
pub record Summary : Type 0 where
  pub path : String
  pub transaction_id : Json
  pub created_at : Json
  pub versions : List (String × String)

unfoldable pub listed_packages : Option (List Json) → M (List (String × String))
unfolding package_version
listed_packages none = pure []
listed_packages (some packages) = fold [] packages package_version

unfoldable pub summary_of : List String → M (Option Summary)
unfolding listed_packages
summary_of [] = pure none
summary_of (name ∷ rest) = do
  metadata ← load_json (join points_root name <> "/recovery-point.json")
  versions ← listed_packages (as_list (get "packages" metadata))
  pure (
      some (record {
        path = join points_root name;
        transaction_id = get "transaction_id" metadata;
        created_at = get "created_at" metadata;
        versions = versions;
      }))

unfoldable pub summary_below : Bool → M (Option Summary)
unfolding summary_of
summary_below false = pure none
summary_below true = do
  listed ← iterdir points_root
  dirs ← real_dirs points_root listed
  points ← with_metadata points_root dirs
  newest ← sorted_points points_root points
  summary_of newest

-- `_latest_recovery_summary`
unfoldable pub latest_recovery_summary : M (Option Summary)
unfolding summary_below
latest_recovery_summary = do
  there ← is_dir points_root
  linked ← is_symlink points_root
  summary_below (there && not linked)

unfoldable pub root_mount : M String
root_mount = do
  result ← run ("/usr/bin/findmnt" ∷ "-nro" ∷ "SOURCE,FSTYPE,OPTIONS" ∷ "/" ∷ [])
  pure (
      if not (result.returncode == 0) || is_empty (strip result.stdout)
      then "desconegut"
      else strip result.stdout)

-- `_dpkg_audit`, with what it printed
unfoldable pub dpkg_detail : M (Bool × String)
dpkg_detail = do
  result ← run ("/usr/bin/dpkg" ∷ "--audit" ∷ [])
  let detail = strip (result.stdout <> result.stderr)
  pure (result.returncode == 0 && is_empty detail, detail)

unfoldable pub failed_units : M String
failed_units = do
  result ← run ("/usr/bin/systemctl" ∷ "--failed" ∷ "--no-legend" ∷ "--plain" ∷ [])
  pure (
      if result.returncode == 0 || result.returncode == 1
      then strip result.stdout
      else "no disponible")

-- `s[:n]`
unfoldable pub take_text : ℕ → String → String
take_text zero s = String.[]
take_text (suc n) String.[] = String.[]
take_text (suc n) (String.◌∷◌ c s) = String.◌∷◌ c (take_text n s)

-- `s.replace("\n", " | ")[:n]`
unfoldable pub on_one_line : ℕ → String → String
unfolding take_text
on_one_line n s = take_text n (join_with " | " (split_char 10 s))

unfoldable pub state_at_path : String → Bool → M (Option Fields)
state_at_path path false = pure none
state_at_path path true =
    catch (do state ← load_json path; pure (some state))
      (λ why. pure (some (fields (("status", text "corrupt") ∷ []))))

unfoldable pub state_of_file : String → M (Option Fields)
unfolding state_at_path
state_of_file path = do
  there ← is_file path
  linked ← is_symlink path
  state_at_path path (there && not linked)

-- `state.get("status", "desconegut")`
abbrev status_value : Option Json → Json
status_value none = text "desconegut"
status_value (some v) = v

unfoldable pub state_line : String → Option Fields → M (List String)
state_line label none = pure []
state_line label (some state) = do
  status ← str_value (status_value (lookup "status" state))
  pure ((label <> status) ∷ [])

unfoldable pub reboot_line : Option Fields → M (List String)
reboot_line none = pure []
reboot_line (some state) = do
  pending ← exists "/var/run/reboot-required"
  pure (if pending then "Sistema base: reinici pendent" ∷ [] else [])

-- The version that was assigned last.
abbrev version_of : String → List (String × String) → String
version_of name [] = ""
version_of name ((k, v) ∷ rest) = if str_eq k name then v else version_of name rest

abbrev names_in : List (String × String) → List String
names_in [] = []
names_in ((k, v) ∷ rest) = k ∷ names_in rest

unfoldable pub versions_line : List (String × String) → List String
versions_line [] = []
versions_line (kv ∷ rest) =
    ("Versions recuperables: "
      <> join_with ", " (
          map (λ name. name <> ("=" <> version_of name (kv ∷ rest)))
            (sorted (distinct (names_in (kv ∷ rest))))))
    ∷ []

unfoldable pub created_text : Json → M String
created_text value = elim (truthy value) [
  | true ↦ do created ← str_value value; pure (" (" <> (created <> ")"))
  | false ↦ pure ""
]

unfoldable pub summary_lines : Option Summary → M (List String)
unfolding versions_line created_text
summary_lines none = pure ("Últim punt de recuperació: no disponible" ∷ [])
summary_lines (some s) = do
  id ← str_value (if truthy s.transaction_id then s.transaction_id else text s.path)
  created ← created_text s.created_at
  pure (("Últim punt de recuperació: " <> (id <> created)) ∷ versions_line s.versions)

unfoldable pub reason_of : Fields → M String
reason_of policy = do value ← setting policy "factory_reset" "reason"; str_value value

abbrev detail_line : String → List String
detail_line detail =
    if is_empty detail then [] else ("Detall dpkg: " <> on_one_line 1200 detail) ∷ []

abbrev failed_text : String → String
failed_text failed = if is_empty failed then "cap" else on_one_line 1500 failed

unfoldable pub status_report : Fields → M String
unfolding root_mount dpkg_detail failed_units on_one_line latest_recovery_summary state_of_file
    state_line reboot_line summary_lines reason_of
status_report policy = do
  (clean, detail) ← dpkg_detail
  latest ← latest_recovery_summary
  value ← setting policy "network" "manager_unit"
  unit ← str_value value
  transaction ← state_of_file "/var/lib/xaac-update/transaction-state.json"
  base ← state_of_file "/var/lib/xaac-update/base-os-state.json"
  recovery ← in_recovery_mode
  root ← root_mount
  active ← unit_active unit
  reason ← reason_of policy
  updates ← state_line "Actualització components XAAC: " transaction
  system ← state_line "Actualització sistema base: " base
  reboot ← reboot_line base
  points ← summary_lines latest
  failed ← failed_units
  pure (
      join_with "\n" (
        "XAAC Thin Client OS — Recovery status"
          ∷ ("Mode recovery: " <> (if recovery then "sí" else "no"))
          ∷ ("Arrel: " <> root)
          ∷ ("dpkg: " <> (if clean then "correcte" else "requereix atenció"))
          ∷ ("Xarxa: " <> (if active then "activa" else "desactivada"))
          ∷ ("Factory reset: deshabilitat (" <> (reason <> ")"))
          ∷ detail_line detail
        ++ (updates
            ++ (system
                ++ (reboot ++ (points ++ ("Serveis fallits: " <> failed_text failed) ∷ [])))))
      <> "\n")
