-- ===== src/Recovery/Tests.antt =====
-- Runs of the recovery runtime on concrete machines, and the theorems applied to them.
use xaac_thin_client_os.Machine.Sample.{plain_host}
use xaac_thin_client_os.Base.{
  ℕ, pos, Bool, true, false, String, Option, none, some, [], ◌∷◌, ◌≡◌, refl, ◌==◌, if◌then◌else◌,
  words, strip, push, is_space, strip_left, not,
}
use xaac_thin_client_os.Json.{Json, Fields, num, text, obj, fields, get, optional_text, json_eq}
use xaac_thin_client_os.Machine.{
  World, Host, Disk, Content, json, file, blob, Result, ok, err, pure, raise, gets, ◌>>=◌, try,
  catch, effect, fresh, run, run_checked, unit_active, is_file, is_symlink, read, read_text,
  load_json, atomic_json, target_of, real_path, present, str_value,
}
use xaac_thin_client_os.Update.{setting, to_int}
use xaac_thin_client_os.Recovery.Runtime.{
  recovery_policy_path, recovery_state_path, load_recovery_policy, recovery_audit, recorded,
  write_action_state, unread, in_recovery_mode, require_recovery_mode,
}
use xaac_thin_client_os.Recovery.Actions.{
  unsuccessful, successful, rollback, recover_configuration, repair_system, set_network,
  switch_unit,
}
use xaac_thin_client_os.Recovery.Menu.{interactive_menu}
use xaac_thin_client_os.Recovery.Refuses.{Refuses, recovery_actions-Refuse}
use xaac_thin_client_os.Recovery.Ready.{ReadyWhereReturned, recovery_actions-IsReady}
use xaac_thin_client_os.Recovery.Harmless.{changes, interactive_menu-IsHarmless}
use xaac_thin_client_os.Recovery.Count.{fails, write_action_state_lem}

abbrev recovery_policy : Fields
recovery_policy = fields (
    ("schema_version", num (pos 1))
    ∷ ("recovery_id", text "xaac-recovery")
    ∷ ("phase", text "10.4")
    ∷ ("hardware_profile", text "wyse3040")
    ∷ ("network", obj (fields (("manager_unit", text "NetworkManager.service") ∷ [])))
    ∷ [])

abbrev recorded_state : Fields
recorded_state = fields (("action_count", num (pos 4)) ∷ [])

-- The disk of a machine whose kernel was started with this command line.
abbrev disk_with : ℕ → Disk
disk_with cmdline =
    ("/proc/cmdline", file (blob cmdline))
    ∷ (recovery_policy_path, file (json (obj recovery_policy)))
    ∷ (recovery_state_path, file (json (obj recorded_state)))
    ∷ []

abbrev command_lines : Content → Option String
command_lines (json v) = none
command_lines (blob n) =
    some (if n == 1 then "quiet systemd.unit=xaac-recovery.target" else "quiet")

abbrev recovery_host : Host
recovery_host = record plain_host { text_of = command_lines }

abbrev booted : ℕ → World
booted cmdline = record { host = recovery_host; time = 0; disk = disk_with cmdline; trace = [] }

abbrev in_recovery : World
in_recovery = booted 1

abbrev elsewhere : World
elsewhere = booted 2

mode_elsewhere : (in_recovery_mode elsewhere).0 ≡ ok false
unfolding in_recovery_mode unread try read_text read gets ◌>>=◌ pure target_of real_path present
    words push
mode_elsewhere = refl

abbrev is_returned : Result Json → Bool
is_returned (ok v) = true
is_returned (err e) = false

-- The change of the network returns.
network_returned : is_returned (set_network true in_recovery).0 ≡ true
unfolding set_network switch_unit successful unsuccessful require_recovery_mode in_recovery_mode
    unread try catch read_text read gets ◌>>=◌ pure raise target_of real_path present words push
    load_recovery_policy load_json json_eq setting str_value recovery_audit is_symlink is_file fresh
    effect run run_checked unit_active write_action_state recorded to_int atomic_json
network_returned = refl

recovery_actions-Refuse_example :
    Refuses (recover_configuration true) elsewhere
    × Refuses repair_system elsewhere
    × Refuses (set_network true) elsewhere
    × Refuses (interactive_menu true ("3" ∷ "REPAIR" ∷ [])) elsewhere
recovery_actions-Refuse_example =
    recovery_actions-Refuse true true ("3" ∷ "REPAIR" ∷ []) elsewhere mode_elsewhere

recovery_actions-IsReady_example :
    ReadyWhereReturned (rollback true) in_recovery
    × ReadyWhereReturned (recover_configuration true) in_recovery
    × ReadyWhereReturned repair_system in_recovery
    × ReadyWhereReturned (set_network true) in_recovery
recovery_actions-IsReady_example = recovery_actions-IsReady true true in_recovery

interactive_menu-IsHarmless_example :
    changes (interactive_menu true ("1" ∷ "2" ∷ "no" ∷ "0" ∷ []) in_recovery).1.trace ≡ []
unfolding strip strip_left is_space
interactive_menu-IsHarmless_example =
    interactive_menu-IsHarmless true ("1" ∷ "2" ∷ "no" ∷ "0" ∷ []) in_recovery refl

write_action_state_lem_example :
    (after : Fields) × ((load_json recovery_state_path
        (write_action_state "repair" none in_recovery).1).0
      ≡ ok after)
    × (get "action_count" after ≡ num (pos 5))
    × (get "last_action" after ≡ text "repair")
    × (json_eq (get "status" after) (text "error") ≡ fails none)
    × (json_eq (get "status" after) (text "ready") ≡ not (fails none))
    × (get "last_error" after ≡ optional_text none)
write_action_state_lem_example =
    write_action_state_lem "repair" none in_recovery recorded_state 4 (λ t e. refl) refl refl
