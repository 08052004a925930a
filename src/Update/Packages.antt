-- ===== src/Update/Packages.antt =====
-- The calls of dpkg and systemctl that change the system, and what runs before them.
use xaac_thin_client_os.Base.{Bool, true, false, String, List, [], ◌∷◌, ◌++◌, ◌&&◌, member}
use xaac_thin_client_os.Machine.{
  M, pure, ◌>>=◌, ◌>>◌, and_then, run, run_checked, process_running, unit_exists, unit_active,
}

-- What ran before the update.
pub record Before : Type 0 where
  pub thin_client_running : Bool
  pub agent_active : Bool
  pub vpn_manager_active : Bool

abbrev pub client_pattern : String
client_pattern = "(^|/)xaac-thinclient([[:space:]]|$)"

unfoldable pub service_active : List String → String → String → M Bool
service_active packages pkg unit =
    and_then (member pkg packages) do there ← unit_exists unit; and_then there (unit_active unit)

-- `_snapshot_runtime_state`
unfoldable pub snapshot_runtime_state : List String → M Before
snapshot_runtime_state packages = do
  client ← and_then (member "xaac-thinclient" packages) (process_running client_pattern)
  agent ← service_active packages "xaac-agent" "xaac-agent.service"
  vpn ← service_active packages "xaac-thin-client-vpn" "xaac-vpn-manager.service"
  pure (record { thin_client_running = client; agent_active = agent; vpn_manager_active = vpn })

abbrev pub unpack_command : List String → List String
unpack_command paths = "/usr/bin/dpkg" ∷ "--unpack" ∷ paths

abbrev pub configure_command : List String → List String
configure_command packages = "/usr/bin/dpkg" ∷ "--configure" ∷ packages

-- `_install_debs`
unfoldable pub install_debs : List String → List String → M (Unit {0})
install_debs paths packages = do
  run_checked (unpack_command paths)
  run_checked (configure_command packages)
  pure tt

unfoldable pub restart_service : Bool → String → M (List String)
restart_service false unit = pure []
restart_service true unit = do
  run_checked ("/usr/bin/systemctl" ∷ "restart" ∷ unit ∷ [])
  pure (unit ∷ [])

unfoldable pub stop_client : Bool → M (List String)
stop_client false = pure []
stop_client true = do
  run ("/usr/bin/pkill" ∷ "-TERM" ∷ "-u" ∷ "xaac-kiosk" ∷ "-f" ∷ client_pattern ∷ [])
  pure ("xaac-thinclient (session supervisor)" ∷ [])

-- `_restart_changed`
unfoldable pub restart_changed : List String → Before → M (List String)
unfolding restart_service stop_client
restart_changed packages before = do
  run ("/usr/bin/systemctl" ∷ "daemon-reload" ∷ [])
  agent ←
      and_then (member "xaac-agent" packages && before.agent_active)
        (unit_exists "xaac-agent.service")
  first ← restart_service agent "xaac-agent.service"
  vpn ←
      and_then (member "xaac-thin-client-vpn" packages && before.vpn_manager_active)
        (unit_exists "xaac-vpn-manager.service")
  second ← restart_service vpn "xaac-vpn-manager.service"
  third ← stop_client (member "xaac-thinclient" packages && before.thin_client_running)
  pure (first ++ (second ++ third))
