-- ===== src/Maintenance/Health.antt =====
-- `health_report`: the checks, and the result that they amount to.
use xaac_thin_client_os.Base.{
  ℕ, ◌/◌, pos, Bool, true, false, not, String, List, [], ◌∷◌, ◌++◌, ◌<>◌, ◌==◌, ◌&&◌, any, map,
  length, str_eq, is_empty, strip, lines, filter, decimal, ltb_ℤ, if◌then◌else◌,
}
use xaac_thin_client_os.Json.{Json, Fields}
use xaac_thin_client_os.Machine.{M, pure, ◌>>=◌, traverse, run, str_value}
use xaac_thin_client_os.Update.{int_setting}
use xaac_thin_client_os.Maintenance.Patterns.{sanitize_text}
use xaac_thin_client_os.Maintenance.Runtime.{unit_info, disk_usage, or_text}
use xaac_thin_client_os.Maintenance.Reports.{units_of, unit_text, ended}

-- OK, AVÍS and ERROR
pub data Level : Type 0 where
  fine warning wrong : Level

-- An element of the list `checks`.
pub record Finding : Type 0 where
  pub subject : String
  pub level : Level
  pub detail : String

abbrev pub finding : String → Level → String → Finding
finding subject level detail = record { subject = subject; level = level; detail = detail }

-- Fine or not, with the level that says so.
abbrev level_if : Bool → Level → Level
level_if ok worse = if ok then fine else worse

-- Below the critical share, or not.
unfoldable pub unless_critical : Bool → Fields → ℕ → ℕ → M Finding
unless_critical false policy free percent =
    pure (finding "emmagatzematge" wrong ("arrel al " <> (decimal percent <> "%")))
unless_critical true policy free percent = do
  warned ← int_setting policy "limits" "root_warning_percent"
  pure (
      if ltb_ℤ (pos percent) warned
      then finding "emmagatzematge" fine
          (decimal percent <> ("% usat; " <> (decimal (free / 1048576) <> " MiB lliures")))
      else finding "emmagatzematge" warning ("arrel al " <> (decimal percent <> "%")))

unfoldable pub storage_finding : Fields → M Finding
unfolding unless_critical
storage_finding policy = do
  (total, free, percent) ← disk_usage
  critical ← int_setting policy "limits" "root_critical_percent"
  unless_critical (ltb_ℤ (pos percent) critical) policy free percent

unfoldable pub dpkg_finding : M Finding
dpkg_finding = do
  result ← run ("/usr/bin/dpkg" ∷ "--audit" ∷ [])
  let output = sanitize_text (strip (result.stdout <> result.stderr))
  pure (
      finding "dpkg" (level_if (result.returncode == 0 && is_empty output) wrong)
        (or_text output "net"))

abbrev no_lines : List String → Bool
no_lines [] = true
no_lines (l ∷ ls) = false

unfoldable pub systemd_finding : M Finding
systemd_finding = do
  failed ← run ("/usr/bin/systemctl" ∷ "--failed" ∷ "--no-legend" ∷ "--plain" ∷ [])
  let failed_lines = filter (λ line. not (is_empty (strip line))) (lines failed.stdout)
  pure (
      finding "systemd" (level_if (no_lines failed_lines) wrong) (
        if no_lines failed_lines
        then "cap unitat fallida"
        else decimal (length failed_lines) <> " unitat(s) fallida(es)"))

unfoldable pub active_finding : Json → M Finding
active_finding value = do
  unit ← str_value value
  info ← unit_info unit
  pure (
      finding unit (level_if (str_eq info.active "active") wrong)
        ("active=" <> (info.active <> (" enabled=" <> info.enabled))))

unfoldable pub loaded_finding : Level → Json → M Finding
loaded_finding worse value = do
  unit ← str_value value
  info ← unit_info unit
  pure (finding unit (level_if (str_eq info.load "loaded") worse) (unit_text info))

abbrev pub is_wrong : Finding → Bool
is_wrong f = elim f.level [ wrong ↦ true | _ ↦ false ]

abbrev pub is_warning : Finding → Bool
is_warning f = elim f.level [ warning ↦ true | _ ↦ false ]

unfoldable pub overall_of : List Finding → String
overall_of checks =
    if any is_wrong checks then "error" else if any is_warning checks then "degraded" else "ok"

abbrev level_text : Level → String
level_text fine = "OK"
level_text warning = "AVÍS"
level_text wrong = "ERROR"

abbrev finding_line : Finding → String
finding_line f = "[" <> (level_text f.level <> ("] " <> (f.subject <> (": " <> f.detail))))

-- `overall.upper()`
abbrev upper_result : String → String
upper_result overall =
    if str_eq overall "error"
    then "ERROR"
    else if str_eq overall "degraded"
    then "DEGRADED"
    else "OK"

unfoldable pub checks_of : Fields → M (List Finding)
unfolding storage_finding dpkg_finding systemd_finding active_finding loaded_finding
checks_of policy = do
  storage ← storage_finding policy
  packages ← dpkg_finding
  units ← systemd_finding
  active_required ← units_of policy "active_required"
  active ← traverse active_required active_finding
  installed_required ← units_of policy "installed_required"
  installed ← traverse installed_required (loaded_finding wrong)
  optional ← units_of policy "optional"
  others ← traverse optional (loaded_finding warning)
  pure (storage ∷ packages ∷ units ∷ active ++ (installed ++ others))

unfoldable pub health_report : Fields → M (String × String)
unfolding checks_of overall_of
health_report policy = do
  checks ← checks_of policy
  let overall = overall_of checks
  pure (
    ended (
        "XAAC Thin Client OS — Health"
        ∷ "============================"
        ∷ ("Resultat: " <> upper_result overall)
        ∷ ""
        ∷ map finding_line checks),
    overall,
  )
