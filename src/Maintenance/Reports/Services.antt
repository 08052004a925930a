-- ===== src/Maintenance/Reports/Services.antt =====
-- `services_report` and `logs_report`
use xaac_thin_client_os.Base.{
  suc, ℤ, pos, negsuc, String, List, [], ◌∷◌, ◌++◌, ◌<>◌, decimal, if◌then◌else◌,
}
use xaac_thin_client_os.Json.{Json, Fields, as_list}
use xaac_thin_client_os.Machine.{
  M, failure, pure, or_raise, ◌>>=◌, traverse, process_running, str_value,
}
use xaac_thin_client_os.Update.{setting, int_setting}
use xaac_thin_client_os.Maintenance.Runtime.{UnitInfo, unit_info, or_text, shown}
use xaac_thin_client_os.Maintenance.Reports.Status.{ended}

-- `policy["services"][key]`, a list
unfoldable pub units_of : Fields → String → M (List Json)
units_of policy key = do
  value ← setting policy "services" key
  or_raise (as_list value) (failure "TypeError")

abbrev pub unit_text : UnitInfo → String
unit_text info =
    "load=" <> (info.load <> (" active=" <> (info.active <> (" enabled=" <> info.enabled))))

unfoldable pub service_line : Json → M String
service_line value = do
  unit ← str_value value
  info ← unit_info unit
  pure (unit <> (": " <> unit_text info))

unfoldable pub services_report : Fields → M String
unfolding service_line
services_report policy = do
  active ← units_of policy "active_required"
  installed ← units_of policy "installed_required"
  optional ← units_of policy "optional"
  units ← traverse (active ++ (installed ++ optional)) service_line
  running ← process_running "xaac-thinclient"
  failed ← shown ("/usr/bin/systemctl" ∷ "--failed" ∷ "--no-pager" ∷ "--plain" ∷ [])
  pure (
      ended (
        "XAAC Thin Client OS — Serveis" ∷ "============================" ∷ units
        ++ ("xaac-thinclient procés: " <> (if running then "actiu" else "no detectat"))
          ∷ ""
          ∷ "[Unitats fallides]"
          ∷ or_text failed "cap"
          ∷ []))

abbrev pub signed_text : ℤ → String
signed_text (pos n) = decimal n
signed_text (negsuc n) = "-" <> decimal (suc n)

unfoldable pub logs_report : Fields → M String
logs_report policy = do
  limit ← int_setting policy "limits" "log_lines"
  entries ← shown (
      "/usr/bin/journalctl"
      ∷ "-b"
      ∷ "-p"
      ∷ "warning..alert"
      ∷ "--no-pager"
      ∷ "-o"
      ∷ "short-iso"
      ∷ "-n"
      ∷ signed_text limit
      ∷ [])
  pure (
      ended (
        "XAAC Thin Client OS — Logs sanititzats"
        ∷ "======================================="
        ∷ or_text entries "cap entrada warning..alert en l'arranc actual"
        ∷ []))
