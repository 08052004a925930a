-- ===== src/Update/Health.antt =====
-- `_health_check`: what must hold after packages have changed.
use xaac_thin_client_os.Base.{
  ℕ, zero, suc, ℤ, pos_part, Bool, true, false, String, Option, none, some, List, [], ◌∷◌, ◌++◌,
  ◌&&◌, str_eq, ◌<>◌, leb, if◌then◌else◌,
}
use xaac_thin_client_os.Json.{Json, bool, text, obj, fields, optional_text}
use xaac_thin_client_os.Machine.{
  M, pure, gets, ◌>>=◌, ask, is_file, installed_version, process_running, unit_active, dpkg_audit,
  apt_check,
}
use xaac_thin_client_os.Update.Packages.{Before, client_pattern}

-- The entries of the dict `checks`, and whether all of them passed.
pub record Verdict : Type 0 where
  pub checks : List (String × Json)
  pub passed : Bool

abbrev passing : Verdict
passing = record { checks = []; passed = true }

abbrev note : Verdict → String → Bool → List (String × Json) → Verdict
note v name ok detail = record {
  checks = v.checks ++ (name, obj (fields (("ok", bool ok) ∷ detail))) ∷ [];
  passed = v.passed && ok;
}

-- `actual == version`
abbrev pub is_version : Option String → String → Bool
is_version none version = false
is_version (some actual) version = str_eq actual version

unfoldable pub check_package : Verdict → String × String → M Verdict
check_package v (pkg, version) = do
  actual ← installed_version pkg
  pure (
      note v ("package:" <> pkg) (is_version actual version)
        (("expected", text version) ∷ ("actual", optional_text actual) ∷ []))

-- A loop over the packages, one check at a time.
unfoldable pub check_all :
    (Verdict → String × String → M Verdict) → Verdict → List (String × String) → M Verdict
check_all check v [] = pure v
check_all check v (entry ∷ rest) = check v entry >>= λ v'. check_all check v' rest

unfoldable pub executable_of : String → Option String
executable_of pkg =
    if str_eq pkg "xaac-thinclient"
    then some "/usr/bin/xaac-thinclient"
    else if str_eq pkg "xaac-thin-client-vpn"
    then some "/usr/bin/xaac-thin-client-vpn"
    else if str_eq pkg "xaac-thin-client-network"
    then some "/usr/bin/xaac-network-gui"
    else if str_eq pkg "xaac-thin-client-dock"
    then some "/usr/bin/xaac-thin-client-dock"
    else if str_eq pkg "xaac-agent"
    then some "/usr/bin/xaac-agent"
    else none

unfoldable pub check_path : Verdict → String → Option String → M Verdict
check_path v pkg none = pure v
check_path v pkg (some path) = do
  there ← is_file path
  runs ← gets (λ w. w.host.executable path)
  pure (note v ("executable:" <> pkg) (there && runs) (("path", text path) ∷ []))

unfoldable pub check_executable : Verdict → String × String → M Verdict
unfolding executable_of check_path
check_executable v (pkg, version) = check_path v pkg (executable_of pkg)

unfoldable pub check_service : Verdict → Bool → String → String → M Verdict
check_service v false name unit = pure v
check_service v true name unit = do ok ← unit_active unit; pure (note v name ok [])

-- The loop that waits for the client: a round sleeps a second, so that there are no more rounds
-- than seconds to the deadline.
unfoldable pub wait_for_client : ℕ → M Bool
wait_for_client zero = pure false
wait_for_client (suc rounds) = do
  late ← ask (λ h. h.late)
  elim late [
    | true ↦ pure false
    | false ↦ do
      running ← process_running client_pattern
      elim running [ true ↦ pure true | false ↦ wait_for_client rounds ]
  ]

abbrev seconds : ℤ → ℕ
seconds timeout = if leb (pos_part timeout) 45 then pos_part timeout else 45

unfoldable pub check_session : Verdict → Bool → ℤ → M Verdict
unfolding wait_for_client
check_session v false timeout = pure v
check_session v true timeout = do
  ok ← wait_for_client (seconds timeout)
  pure (note v "session:xaac-thinclient" ok [])

unfoldable pub health_check : List (String × String) → Before → ℤ → M Verdict
unfolding check_service check_session
health_check expected before timeout = do
  packages ← check_all check_package passing expected
  audit_ok ← dpkg_audit
  let audited_v = note packages "dpkg_audit" audit_ok []
  apt_ok ← apt_check
  let apt_v = note audited_v "apt_check" apt_ok []
  executables ← check_all check_executable apt_v expected
  agent ← check_service executables before.agent_active "service:xaac-agent" "xaac-agent.service"
  vpn ←
      check_service agent before.vpn_manager_active "service:xaac-vpn-manager"
        "xaac-vpn-manager.service"
  check_session vpn before.thin_client_running timeout
