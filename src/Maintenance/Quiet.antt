-- ===== src/Maintenance/Quiet.antt =====
-- The reports of the maintenance runtime do nothing but ask and run commands.
use xaac_thin_client_os.Base.{ℕ, String, Option, none, some, Bool, true, false, List}
use xaac_thin_client_os.Json.{Json, Fields}
use xaac_thin_client_os.Machine.{
  Event, run, Exc, runtime_error, failure, pure, process_running, installed_version,
}
use xaac_thin_client_os.Machine.Keeps.{Keeps, Keeps-pure, Keeps-raise, keeps_rules}
use xaac_thin_client_os.Machine.Quiet.{Keeps-str_value, look_rules}
use xaac_thin_client_os.Update.Quiet.{Keeps-setting, Keeps-int_setting}
use xaac_thin_client_os.Maintenance.Runtime.{
  unless_missing, release_names, package_version_text, unit_info, uptime_seconds, uptime_text,
  boot_time, ip_summary, memory_summary, zram_summary, disk_usage, shown,
}
use xaac_thin_client_os.Maintenance.Reports.{
  loaded_if, optional_state, state_text, package_line, active_line, last_error, runtime_lines,
  version_text, completed_text, update_lines, maintenance_status, section_lines, network_report,
  read_optional, device_line, smart_output, smart_report, device_lines, emmc_health_lines,
  storage_report, units_of, service_line, services_report, logs_report, release_value,
}
use xaac_thin_client_os.Maintenance.Health.{
  unless_critical, storage_finding, dpkg_finding, systemd_finding, active_finding, loaded_finding,
  checks_of, health_report, Level,
}

module _ {A : Type 0} {P : List Event → Type 0} where
  pub Keeps-unless_missing : (a : A) (e : Exc) → Keeps P (unless_missing a e)
  unfolding unless_missing
  Keeps-unless_missing a (runtime_error s) = Keeps-raise (runtime_error s)
  Keeps-unless_missing a (failure s) = search keeps_rules

module _ {P : List Event → Type 0} where
  pub Keeps-release_names : Keeps P release_names
  unfolding release_names
  Keeps-release_names = search (look_rules, Keeps-unless_missing)

  Keeps-uptime_text : Keeps P uptime_text
  unfolding uptime_text uptime_seconds
  Keeps-uptime_text = search (look_rules, Keeps-unless_missing)

  Keeps-memory_summary : Keeps P memory_summary
  unfolding memory_summary
  Keeps-memory_summary = search (look_rules, Keeps-unless_missing)

  Keeps-zram_summary : Keeps P zram_summary
  unfolding zram_summary
  Keeps-zram_summary = search (look_rules, Keeps-unless_missing)

  Keeps-disk_usage : Keeps P disk_usage
  unfolding disk_usage
  Keeps-disk_usage = search keeps_rules

  Keeps-loaded_if : (p : String) (b : Bool) → Keeps P (loaded_if p b)
  unfolding loaded_if
  Keeps-loaded_if p true = search look_rules
  Keeps-loaded_if p false = search look_rules

  pub Keeps-optional_state : (p : String) → Keeps P (optional_state p)
  unfolding optional_state
  Keeps-optional_state p = search (look_rules, Keeps-loaded_if)

  Keeps-state_text : (s : Fields) (k other : String) → Keeps P (state_text s k other)
  unfolding state_text
  Keeps-state_text s k other = Keeps-str_value _

  Keeps-completed_text : (s : Fields) → Keeps P (completed_text s)
  unfolding completed_text
  Keeps-completed_text s = Keeps-str_value _

  named-Keeps :
      (s : Fields) (o : Option String)
      → Keeps P (elim o [ some v ↦ pure v | none ↦ state_text s "os_version" "desconeguda" ])
  named-Keeps s none = Keeps-state_text s _ _
  named-Keeps s (some v) = Keeps-pure v

  Keeps-version_text :
      (names : List (String × String)) (s : Fields) → Keeps P (version_text names s)
  unfolding version_text
  Keeps-version_text names s = named-Keeps s (release_value "VERSION_ID" names)

  Keeps-read_optional : (p : String) → Keeps P (read_optional p)
  unfolding read_optional
  Keeps-read_optional p = search (look_rules, Keeps-unless_missing)

  Keeps-device_line : (d : String) (x : String × String) → Keeps P (device_line d x)
  unfolding device_line
  Keeps-device_line d (name, label) = search (keeps_rules, Keeps-read_optional)

  pub Keeps-units_of : (p : Fields) (k : String) → Keeps P (units_of p k)
  unfolding units_of
  Keeps-units_of p k = search (keeps_rules, Keeps-setting)

ruleset asked_rules = (
  look_rules, Keeps-release_names, Keeps-uptime_text, Keeps-memory_summary, Keeps-zram_summary,
  Keeps-disk_usage, Keeps-optional_state, Keeps-state_text, Keeps-completed_text,
  Keeps-version_text, Keeps-units_of, Keeps-str_value, Keeps-int_setting, Keeps-device_line,
)

-- For a property that commands leave alone
module _ {P : List Event → Type 0} (runs : (c : List String) → Keeps P (run c)) where
  pub Keeps-package_version_text : (p : String) → Keeps P (package_version_text p)
  unfolding package_version_text installed_version
  Keeps-package_version_text p = search (keeps_rules, runs)

  Keeps-process_running : (p : String) → Keeps P (process_running p)
  unfolding process_running
  Keeps-process_running p = search (keeps_rules, runs)

  Keeps-unit_info : (u : String) → Keeps P (unit_info u)
  unfolding unit_info
  Keeps-unit_info u = search (keeps_rules, runs)

  Keeps-shown : (c : List String) → Keeps P (shown c)
  unfolding shown
  Keeps-shown c = search (keeps_rules, runs)

  Keeps-package_line : (n : String) → Keeps P (package_line n)
  unfolding package_line
  Keeps-package_line n = search (keeps_rules, Keeps-package_version_text)

  Keeps-active_line : (l u : String) → Keeps P (active_line l u)
  unfolding active_line
  Keeps-active_line l u = search (keeps_rules, Keeps-unit_info)

  Keeps-update_lines : (s t : Fields) → Keeps P (update_lines s t)
  unfolding update_lines last_error
  Keeps-update_lines s t = search (asked_rules, runs) depth 16

  Keeps-runtime_lines : Keeps P runtime_lines
  unfolding runtime_lines
  Keeps-runtime_lines = search (keeps_rules, Keeps-active_line, Keeps-process_running) depth 16

  pub Keeps-maintenance_status : Keeps P maintenance_status
  unfolding maintenance_status boot_time ip_summary
  Keeps-maintenance_status =
      search (asked_rules, runs, Keeps-package_line, Keeps-runtime_lines, Keeps-update_lines) depth
        40

  pub Keeps-network_report : Keeps P network_report
  unfolding network_report section_lines
  Keeps-network_report = search (keeps_rules, Keeps-shown, Keeps-active_line) depth 24

  Keeps-smart_output : (b : Bool) (t n : String) → Keeps P (smart_output b t n)
  unfolding smart_output
  Keeps-smart_output false t n = search keeps_rules
  Keeps-smart_output true t n = search (keeps_rules, Keeps-shown)

  Keeps-smart_report : (o : Option String) (n : String) → Keeps P (smart_report o n)
  unfolding smart_report
  Keeps-smart_report none n = search keeps_rules
  Keeps-smart_report (some tool) n = search (look_rules, Keeps-smart_output)

  Keeps-device_lines : (n : String) → Keeps P (device_lines n)
  unfolding device_lines
  Keeps-device_lines n = search (asked_rules, Keeps-smart_report)

  pub Keeps-storage_report : Keeps P storage_report
  unfolding storage_report emmc_health_lines
  Keeps-storage_report = search (asked_rules, Keeps-shown, Keeps-device_lines) depth 20

  Keeps-service_line : (v : Json) → Keeps P (service_line v)
  unfolding service_line
  Keeps-service_line v = search (asked_rules, Keeps-unit_info)

  pub Keeps-services_report : (p : Fields) → Keeps P (services_report p)
  unfolding services_report
  Keeps-services_report p =
      search (asked_rules, Keeps-shown, Keeps-service_line, Keeps-process_running) depth 20

  pub Keeps-logs_report : (p : Fields) → Keeps P (logs_report p)
  unfolding logs_report
  Keeps-logs_report p = search (asked_rules, Keeps-shown)

  Keeps-unless_critical :
      (b : Bool) (p : Fields) (free percent : ℕ) → Keeps P (unless_critical b p free percent)
  unfolding unless_critical
  Keeps-unless_critical false p free percent = search keeps_rules
  Keeps-unless_critical true p free percent = search asked_rules

  Keeps-storage_finding : (p : Fields) → Keeps P (storage_finding p)
  unfolding storage_finding
  Keeps-storage_finding p = search (asked_rules, Keeps-unless_critical)

  Keeps-dpkg_finding : Keeps P dpkg_finding
  unfolding dpkg_finding
  Keeps-dpkg_finding = search (keeps_rules, runs)

  Keeps-systemd_finding : Keeps P systemd_finding
  unfolding systemd_finding
  Keeps-systemd_finding = search (keeps_rules, runs)

  Keeps-active_finding : (v : Json) → Keeps P (active_finding v)
  unfolding active_finding
  Keeps-active_finding v = search (asked_rules, Keeps-unit_info)

  Keeps-loaded_finding : (l : Level) (v : Json) → Keeps P (loaded_finding l v)
  unfolding loaded_finding
  Keeps-loaded_finding l v = search (asked_rules, Keeps-unit_info)

  pub Keeps-health_report : (p : Fields) → Keeps P (health_report p)
  unfolding health_report checks_of
  Keeps-health_report p =
      search
        (
          asked_rules, Keeps-storage_finding, Keeps-dpkg_finding, Keeps-systemd_finding,
          Keeps-active_finding, Keeps-loaded_finding,
        )
        depth 30
