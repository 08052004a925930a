-- ===== src/BaseOs/Checks.antt =====
-- `_platform_checks` and `preflight`, and the checks that `_post_health` shares with them.
use xaac_thin_client_os.Base.{
  pos, Bool, true, false, not, String, List, [], ◌∷◌, ◌++◌, ◌&&◌, ◌||◌, ◌<>◌, str_eq, contains,
  starts_with, strip, is_empty, ltb_ℤ, if◌then◌else◌,
}
use xaac_thin_client_os.Json.{
  Json, Fields, Items, bool, num, text, arr, obj, nil, cons, fields, optional_text, json_eq,
}
use xaac_thin_client_os.Machine.{
  M, Exc, runtime_error, failure, pure, raise, gets, ◌>>=◌, try, catch, read_text, run, dpkg_audit,
  apt_check,
}
use xaac_thin_client_os.Update.{setting, int_setting}
use xaac_thin_client_os.BaseOs.Runtime.{os_release, debian_version, architecture, value_of}
use xaac_thin_client_os.Machine.{str_value}
use xaac_thin_client_os.BaseOs.Trust.{report_json, validate_sources}

-- An element of the list `checks`; `detail` holds the keys beside `name` and `ok`.
pub record Check : Type 0 where
  pub name : String
  pub ok : Bool
  pub detail : List (String × Json)

abbrev check_json : Check → Json
check_json c = obj (fields (("name", text c.name) ∷ ("ok", bool c.ok) ∷ c.detail))

abbrev pub check_items : List Check → Items
check_items [] = nil
check_items (c ∷ cs) = cons (check_json c) (check_items cs)

-- `all(bool(item.get("ok")) for item in checks)`
abbrev pub all_ok : List Check → Bool
all_ok [] = true
all_ok (c ∷ cs) = c.ok && all_ok cs

abbrev pub plain : String → Bool → Check
plain name ok = record { name = name; ok = ok; detail = [] }

abbrev is_major : String → String → Bool
is_major version major = str_eq version major || starts_with (major <> ".") version

unfoldable pub platform_checks : Fields → M (List Check)
platform_checks policy = do
  release ← os_release
  version ← debian_version
  machine ← architecture
  os_id ← setting policy "platform" "os_id"
  major ← setting policy "platform" "debian_major"
  number ← str_value major
  wanted ← setting policy "platform" "architecture"
  pure (
      record {
        name = "os_identity";
        ok = json_eq (optional_text (value_of "ID" release)) os_id;
        detail = ("value", optional_text (value_of "ID" release)) ∷ [];
      }
      ∷ record {
        name = "debian_major";
        ok = is_major version number;
        detail = ("value", text version) ∷ [];
      }
      ∷ record {
        name = "architecture";
        ok = json_eq (text machine) wanted;
        detail = ("value", text machine) ∷ [];
      }
      ∷ [])

unfoldable pub no_file : Exc → M String
no_file (runtime_error s) = raise (runtime_error s)
no_file (failure s) = if str_eq s "OSError" then pure "" else raise (failure s)

-- The command line of the kernel, or nothing where it cannot be read.
unfoldable pub command_line : M String
unfolding no_file
command_line = try (read_text "/proc/cmdline") (λ s. pure (strip s)) no_file

unfoldable pub boot_check : M Check
boot_check = do
  cmdline ← command_line
  let recovery = contains "systemd.unit=xaac-recovery.target" cmdline
  pure (record {
    name = "normal_boot_mode";
    ok = not recovery;
    detail = ("value", text (if recovery then "recovery" else "normal")) ∷ [];
  })

unfoldable pub sources_check : Fields → M Check
sources_check policy =
    catch
      (do
        report ← validate_sources policy
        pure (record {
          name = "apt_sources";
          ok = true;
          detail = ("detail", report_json report) ∷ [];
        }))
      (λ why.
        pure (record { name = "apt_sources"; ok = false; detail = ("detail", text why) ∷ [] }))

unfoldable pub space_check : Fields → M Check
space_check policy = do
  free ← gets (λ w. w.host.free_bytes w.time)
  required ← int_setting policy "policy" "minimum_free_bytes"
  pure (record {
    name = "free_space";
    ok = not (ltb_ℤ (pos free) required);
    detail = ("free_bytes", num (pos free)) ∷ ("required_bytes", num required) ∷ [];
  })

unfoldable pub package_checks : M (List Check)
package_checks = do
  audited ← dpkg_audit
  checked ← apt_check
  pure (plain "dpkg_audit" audited ∷ plain "apt_check" checked ∷ [])

abbrev either_text : String → String → String
either_text s t = if is_empty s then t else s

unfoldable pub timer_check : String → M Check
timer_check timer = do
  result ← run ("/usr/bin/systemctl" ∷ "is-enabled" ∷ timer ∷ [])
  let state = strip (either_text result.stdout result.stderr)
  pure (record {
    name = timer <> "_masked";
    ok = str_eq state "masked";
    detail = ("value", text state) ∷ [];
  })

unfoldable pub timer_checks : M (List Check)
unfolding timer_check
timer_checks = do
  daily ← timer_check "apt-daily.timer"
  upgrade ← timer_check "apt-daily-upgrade.timer"
  pure (daily ∷ upgrade ∷ [])

-- `preflight`: the checks; they passed where `all_ok` says so
unfoldable pub preflight : Fields → M (List Check)
unfolding boot_check space_check package_checks timer_checks
preflight policy = do
  platform ← platform_checks policy
  boot ← boot_check
  sources ← sources_check policy
  space ← space_check policy
  packages ← package_checks
  timers ← timer_checks
  pure (platform ++ (boot ∷ sources ∷ space ∷ packages ++ timers))

abbrev pub preflight_json : List Check → Json
preflight_json checks = obj (
    fields (
      ("status", text (if all_ok checks then "ok" else "failed"))
      ∷ ("phase", text "10.6")
      ∷ ("checks", arr (check_items checks))
      ∷ []))
