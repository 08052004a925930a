-- ===== src/Maintenance/Reports/Status.antt =====
-- `status_report`
use xaac_thin_client_os.Base.{
  ℕ, ◌/◌, Bool, true, false, String, Option, none, some, List, [], ◌∷◌, ◌++◌, ◌<>◌, ◌||◌, str_eq,
  is_empty, strip, join_with, decimal, if◌then◌else◌,
}
use xaac_thin_client_os.Json.{Json, Fields, text, end, get, lookup, truthy}
use xaac_thin_client_os.Machine.{
  M, pure, gets, ◌>>=◌, catch, traverse, run, load_json, is_file, exists, process_running,
  str_value,
}
use xaac_thin_client_os.Maintenance.Patterns.{sanitize_text}
use xaac_thin_client_os.Maintenance.Runtime.{
  release_names, package_version_text, unit_info, uptime_text, boot_time, ip_summary,
  memory_summary, zram_summary, disk_usage,
}

abbrev pub component_packages : List String
component_packages =
    "xaac-thinclient" ∷ "xaac-thin-client-vpn" ∷ "xaac-thin-client-network"
    ∷ "xaac-thin-client-dock" ∷ "xaac-agent" ∷ []

-- A state file that is missing or cannot be read counts as empty.
unfoldable pub loaded_if : String → Bool → M Fields
loaded_if path false = pure end
loaded_if path true = catch (load_json path) (λ why. pure end)

unfoldable pub optional_state : String → M Fields
unfolding loaded_if
optional_state path = do there ← is_file path; loaded_if path there

abbrev pub release_value : String → List (String × String) → Option String
release_value key [] = none
release_value key ((k, v) ∷ rest) = if str_eq k key then some v else release_value key rest

abbrev or_else_text : Option String → String → String
or_else_text none other = other
or_else_text (some s) other = s

abbrev or_value : Option Json → String → Json
or_value none s = text s
or_value (some v) s = v

-- `state.get(key, other)` in a text
unfoldable pub state_text : Fields → String → String → M String
state_text state key other = str_value (or_value (lookup key state) other)

unfoldable pub package_line : String → M String
package_line name = do
  version ← package_version_text name
  pure ("  " <> (name <> (": " <> version)))

unfoldable pub active_line : String → String → M String
active_line label unit = do info ← unit_info unit; pure (label <> (": " <> info.active))

unfoldable pub last_error : M String
last_error = do
  result ← run (
      "/usr/bin/journalctl" ∷ "-b" ∷ "-p" ∷ "err..alert" ∷ "--no-pager" ∷ "-o" ∷ "short-iso" ∷ "-n"
      ∷ "1" ∷ [])
  let entries = sanitize_text (strip result.stdout)
  pure (if is_empty entries || str_eq entries "-- No entries --" then "cap" else entries)

abbrev pub mebibytes : ℕ → String
mebibytes n = decimal (n / 1048576)

abbrev running_text : Bool → String
running_text running = if running then "en execució" else "no detectat"

unfoldable pub runtime_lines : M (List String)
unfolding active_line
runtime_lines = do
  running ← process_running "xaac-thinclient"
  vpn ← active_line "  VPN manager" "xaac-vpn-manager.service"
  agent ← active_line "  Agent" "xaac-agent.service"
  network ← active_line "  NetworkManager" "NetworkManager.service"
  tables ← active_line "  nftables" "nftables.service"
  armor ← active_line "  AppArmor" "apparmor.service"
  shell ← active_line "  SSH" "ssh.service"
  pure (
      ("  Thin Client: " <> running_text running)
      ∷ vpn
      ∷ agent
      ∷ network
      ∷ tables
      ∷ armor
      ∷ shell
      ∷ [])

-- The version of the system: what /etc/os-release says, else the release, else that it is unknown.
unfoldable pub version_text : List (String × String) → Fields → M String
unfolding state_text
version_text names current = elim (release_value "VERSION_ID" names) [
  | some v ↦ pure v
  | none ↦ state_text current "os_version" "desconeguda"
]

-- `tx.get('completed_at') or 'cap'`
unfoldable pub completed_text : Fields → M String
completed_text state =
    str_value (if truthy (get "completed_at" state) then get "completed_at" state else text "cap")

unfoldable pub update_lines : Fields → Fields → M (List String)
unfolding state_text completed_text last_error
update_lines transaction base = do
  components ← state_text transaction "status" "sense estat"
  debian ← state_text base "status" "sense estat"
  reboot ← exists "/var/run/reboot-required"
  completed ← completed_text transaction
  worst ← last_error
  pure (
      ("Actualització components XAAC: " <> components)
      ∷ ("Actualització Debian: " <> debian)
      ∷ ("Reinici Debian pendent: " <> (if reboot then "sí" else "no"))
      ∷ ("Última transacció completada: " <> completed)
      ∷ ("Últim error important: " <> worst)
      ∷ [])

abbrev pub ended : List String → String
ended ls = join_with "\n" ls <> "\n"

unfoldable pub maintenance_status : M String
unfolding optional_state version_text package_line runtime_lines update_lines
maintenance_status = do
  names ← release_names
  (total, free, percent) ← disk_usage
  current ← optional_state "/usr/share/xaac/update/current-release.json"
  transaction ← optional_state "/var/lib/xaac-update/transaction-state.json"
  base ← optional_state "/var/lib/xaac-update/base-os-state.json"
  version ← version_text names current
  kernel ← gets (λ w. w.host.kernel)
  uptime ← uptime_text
  boot ← boot_time
  ip ← ip_summary
  memory ← memory_summary
  zram ← zram_summary
  packages ← traverse component_packages package_line
  runtime ← runtime_lines
  updates ← update_lines transaction base
  pure (
      ended (
        "XAAC Thin Client OS — Estat"
          ∷ "==========================="
          ∷ ("Sistema: " <> or_else_text (release_value "PRETTY_NAME" names) "XAAC Thin Client OS")
          ∷ ("Versió OS: " <> version)
          ∷ ("Kernel: " <> kernel)
          ∷ ("Uptime: " <> uptime)
          ∷ ("Boot actual des de: " <> boot)
          ∷ ("IP: " <> ip)
          ∷ ("RAM: " <> memory)
          ∷ ("zram: " <> zram)
          ∷ ("Arrel: "
              <> (decimal percent
                  <> ("% usat, "
                      <> (mebibytes free <> (" MiB lliures de " <> (mebibytes total <> " MiB"))))))
          ∷ ""
          ∷ "Components XAAC:"
          ∷ packages
        ++ ("" ∷ "Runtime:" ∷ runtime ++ "" ∷ updates)))
