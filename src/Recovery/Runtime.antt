-- ===== src/Recovery/Runtime.antt =====
-- The policy, the state and the audit log of the recovery runtime, and the mode that it asks for.
use xaac_thin_client_os.Base.{
  ◌==◌, ◌-◌, ℤ, pos, negsuc, suc, Bool, true, false, not, String, Option, none, some, [], ◌∷◌, ◌||◌,
  ◌&&◌, str_eq, member, is_empty, words, if◌then◌else◌,
}
use xaac_thin_client_os.Json.{
  Json, Fields, num, text, obj, end, fields, get, lookup, json_eq, optional_text,
}
use xaac_thin_client_os.Machine.{
  M, Exc, runtime_error, failure, pure, raise, ◌>>=◌, ◌>>◌, raise_if, try, catch, effect, fresh,
  audited, load_json, atomic_json, is_file, is_symlink, read_text,
}
use xaac_thin_client_os.Update.{to_int}

abbrev pub recovery_policy_path : String
recovery_policy_path = "/etc/xaac/recovery/policy.json"

abbrev pub recovery_state_path : String
recovery_state_path = "/var/lib/xaac-recovery/state.json"

abbrev pub audit_path : String
audit_path = "/var/log/xaac-recovery/recovery.jsonl"

abbrev pub target_token : String
target_token = "systemd.unit=xaac-recovery.target"

abbrev differs : String → Json → Fields → Bool
differs key value policy = not (json_eq (get key policy) value)

unfoldable pub load_recovery_policy : M Fields
load_recovery_policy = do
  policy ← load_json recovery_policy_path
  raise_if
      (differs "schema_version" (num (pos 1)) policy
        || differs "recovery_id" (text "xaac-recovery") policy
        || differs "phase" (text "10.4") policy
        || differs "hardware_profile" (text "wyse3040") policy)
      (runtime_error "Política de recuperació no compatible")
  pure policy

unfoldable pub audit_failed : Exc → M (Unit {0})
audit_failed e = raise (runtime_error "No s'ha pogut escriure l'auditoria")

-- `_audit`: what the record says beside the event is left out
unfoldable pub recovery_audit : String → M (Unit {0})
unfolding audit_failed
recovery_audit event = do
  unsafe ← is_symlink audit_path
  raise_if unsafe (runtime_error "Destinació d'auditoria insegura")
  fresh (λ h. h.now)
  try (effect (audited event) (λ d. d)) pure audit_failed

unfoldable pub recorded : Bool → M Fields
recorded false = pure end
recorded true = catch (load_json recovery_state_path) (λ why. pure end)

abbrev or_zero : Option Json → Json
or_zero none = num (pos 0)
or_zero (some v) = v

-- `n + 1`
abbrev pub next : ℤ → ℤ
next (pos n) = pos (suc n)
next (negsuc n) = if n == 0 then pos 0 else negsuc (n - 1)

-- `"error" if error else "ready"`: an empty text counts as none
abbrev pub status_of_action : Option String → String
status_of_action none = "ready"
status_of_action (some why) = if is_empty why then "ready" else "error"

abbrev pub action_fields : String → Option String → String → ℤ → Fields
action_fields action error now count = fields (
    ("schema_version", num (pos 1))
    ∷ ("recovery_id", text "xaac-recovery")
    ∷ ("phase", text "10.4")
    ∷ ("status", text (status_of_action error))
    ∷ ("last_action", text action)
    ∷ ("last_action_at", text now)
    ∷ ("last_error", optional_text error)
    ∷ ("action_count", num (next count))
    ∷ [])

-- `_write_state`
unfoldable pub write_action_state : String → Option String → M (Unit {0})
unfolding recorded
write_action_state action error = do
  there ← is_file recovery_state_path
  linked ← is_symlink recovery_state_path
  previous ← recorded (there && not linked)
  now ← fresh (λ h. h.now)
  count ← to_int (or_zero (lookup "action_count" previous))
  atomic_json recovery_state_path (obj (action_fields action error now count))

unfoldable pub unread : Exc → M Bool
unread (runtime_error s) = raise (runtime_error s)
unread (failure s) = if str_eq s "OSError" then pure false else raise (failure s)

unfoldable pub in_recovery_mode : M Bool
unfolding unread
in_recovery_mode =
    try (read_text "/proc/cmdline") (λ s. pure (member target_token (words s))) unread

unfoldable pub require_recovery_mode : M (Unit {0})
require_recovery_mode = do
  there ← in_recovery_mode
  raise_if (not there)
      (runtime_error "Aquesta operació només està permesa després d'arrancar des de GRUB")

-- `_update_runtime`, with whether the import worked
unfoldable pub update_runtime : Bool → M (Unit {0})
update_runtime available =
    raise_if (not available) (runtime_error "No està disponible el runtime de rollback 10.2")
