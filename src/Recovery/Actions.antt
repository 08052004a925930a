-- ===== src/Recovery/Actions.antt =====
-- The actions of the recovery runtime: `rollback`, `restore_configuration`, `repair_system` and
-- `set_network`.
use xaac_thin_client_os.Base.{
  Bool, true, false, not, String, none, some, List, [], ◌∷◌, ◌++◌, ◌||◌, contains, if◌then◌else◌,
}
use xaac_thin_client_os.Json.{Json, Fields, text, obj, fields, texts, truthy}
use xaac_thin_client_os.Machine.{
  M, Exc, runtime_error, message, pure, raise, gets, ◌>>=◌, ◌>>◌, raise_if, try, fresh, is_file,
  is_symlink, read, run_checked, dpkg_audit, unit_active, str_value,
}
use xaac_thin_client_os.Update.{setting, manual_rollback, restore_latest_configuration}
use xaac_thin_client_os.Recovery.Runtime.{
  load_recovery_policy, recovery_audit, write_action_state, in_recovery_mode, require_recovery_mode,
  update_runtime,
}

-- The `except Exception` clause of an action, which records the failure and raises it again.
unfoldable pub unsuccessful : {A : Type 0} → String → String → Exc → M A
unsuccessful action event e = do
  write_action_state action (some (message e))
  recovery_audit event
  raise (runtime_error (message e))

-- What follows the `try` block of an action.
unfoldable pub successful : {A : Type 0} → String → String → A → M A
successful action event result = do
  write_action_state action none
  recovery_audit event
  pure result

unfoldable pub rollback : Bool → M Json
unfolding unsuccessful successful
rollback available = do
  update_runtime available
  in_recovery_mode
  recovery_audit "rollback_started"
  try (manual_rollback true) (successful "rollback" "rollback_completed")
      (unsuccessful "rollback" "rollback_failed")

unfoldable pub recover_configuration : Bool → M Json
unfolding unsuccessful successful
recover_configuration available = do
  require_recovery_mode
  update_runtime available
  recovery_audit "configuration_restore_started"
  try (restore_latest_configuration true)
      (successful "restore-configuration" "configuration_restore_completed")
      (unsuccessful "restore-configuration" "configuration_restore_failed")

-- A command of the repair that the policy may leave out, with the step that it adds.
unfoldable pub optional_step : Bool → List String → String → M (List String)
optional_step false command step = pure []
optional_step true command step = do run_checked command; pure (step ∷ [])

abbrev pub grub_path : String
grub_path = "/boot/grub/grub.cfg"

abbrev pub normal_entry : String
normal_entry = "XAAC Thin Client OS'"

abbrev pub recovery_entry : String
recovery_entry = "XAAC Thin Client OS — Recovery'"

unfoldable pub check_grub : M (Unit {0})
check_grub = do
  there ← is_file grub_path
  linked ← is_symlink grub_path
  raise_if (not there || linked)
      (runtime_error "/boot/grub/grub.cfg absent o insegur després de reparar")
  content ← read grub_path
  menu ← gets (λ w. w.host.replaced content)
  raise_if (not (contains normal_entry menu)) (runtime_error "GRUB no conté l'entrada esperada")
  raise_if (not (contains recovery_entry menu)) (runtime_error "GRUB no conté l'entrada esperada")

unfoldable pub repair_grub : Bool → M (List String)
unfolding check_grub
repair_grub false = pure []
repair_grub true = do
  run_checked ("/usr/sbin/update-grub" ∷ [])
  check_grub
  pure ("update-grub" ∷ "grub-entries" ∷ [])

unfoldable pub repair_steps : Fields → M (List String)
unfolding optional_step repair_grub
repair_steps policy = do
  configure ← setting policy "repair" "dpkg_configure"
  configured ←
      optional_step (truthy configure) ("/usr/bin/dpkg" ∷ "--configure" ∷ "-a" ∷ [])
        "dpkg-configure"
  clean ← dpkg_audit
  raise_if (not clean) (runtime_error "dpkg continua informant paquets incomplets")
  initramfs ← setting policy "repair" "update_initramfs"
  updated ←
      optional_step (truthy initramfs) ("/usr/sbin/update-initramfs" ∷ "-u" ∷ "-k" ∷ "all" ∷ [])
        "update-initramfs"
  grub ← setting policy "repair" "update_grub"
  last ← repair_grub (truthy grub)
  pure (configured ++ "dpkg-audit" ∷ updated ++ last)

-- `result_payload`; of each step its name
abbrev pub repaired : List String → String → Json
repaired steps now = obj (
    fields (("status", text "repaired") ∷ ("completed_at", text now) ∷ ("steps", texts steps) ∷ []))

unfoldable pub finish_repair : List String → M Json
unfolding successful
finish_repair steps = do
  now ← fresh (λ h. h.now)
  successful "repair" "repair_completed" (repaired steps now)

unfoldable pub repair_system : M Json
unfolding unsuccessful repair_steps finish_repair
repair_system = do
  require_recovery_mode
  policy ← load_recovery_policy
  recovery_audit "repair_started"
  try (repair_steps policy) finish_repair (unsuccessful "repair" "repair_failed")

abbrev network_action : Bool → String
network_action enabled = if enabled then "network-on" else "network-off"

abbrev pub same_bool : Bool → Bool → Bool
same_bool true b = b
same_bool false b = not b

unfoldable pub switch_unit : Bool → String → M (Unit {0})
switch_unit enabled unit = do
  run_checked ("/usr/bin/systemctl" ∷ (if enabled then "start" else "stop") ∷ unit ∷ [])
  active ← unit_active unit
  raise_if (not (same_bool active enabled)) (runtime_error "La unitat no ha quedat com es demanava")

abbrev network_json : Bool → String → Json
network_json enabled unit = obj (
    fields (("status", text (if enabled then "active" else "inactive")) ∷ ("unit", text unit) ∷ []))

unfoldable pub set_network : Bool → M Json
unfolding unsuccessful successful switch_unit
set_network enabled = do
  require_recovery_mode
  policy ← load_recovery_policy
  value ← setting policy "network" "manager_unit"
  unit ← str_value value
  recovery_audit "network_change_started"
  try (switch_unit enabled unit)
      (λ _.
        successful (network_action enabled) "network_change_completed" (network_json enabled unit))
      (unsuccessful (network_action enabled) "network_change_failed")
