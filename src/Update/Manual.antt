-- ===== src/Update/Manual.antt =====
-- The entry points beside `apply_update`: the rollback by hand, the restore of the configuration,
-- and the recovery at boot from an update that was cut short.
pub mod Boot
use xaac_thin_client_os.Base.{
  Bool, true, false, pos, String, Option, none, some, List, [], ◌∷◌, ◌<>◌, starts_char, member,
}
use xaac_thin_client_os.Json.{
  Json, Fields, null, num, text, arr, obj, fields, items, get, lookup, as_obj, as_list, iterated,
  as_text, set_field,
}
use xaac_thin_client_os.Machine.{
  M, runtime_error, failure, pure, or_raise, ◌>>=◌, ◌>>◌, fresh, is_file, load_json, atomic_json,
}
use xaac_thin_client_os.Update.Policy.{load_policy, state_path, acquire, holding_lock, audit_event}
use xaac_thin_client_os.Update.Point.{restore_configuration}
use xaac_thin_client_os.Update.Packages.{service_active, snapshot_runtime_state}
use xaac_thin_client_os.Update.Prune.{latest_recovery_point}
use xaac_thin_client_os.Update.Rollback.{rollback_from_recovery}

name_of : Option String → List String → List String
name_of none rest = rest
name_of (some pkg) rest = pkg ∷ rest

-- `{item.get("package") for item in packages if isinstance(item, dict)}`, the texts of it: only
-- texts are looked for in the set.
abbrev listed_names : List Json → List String
listed_names [] = []
listed_names (obj item ∷ rest) = name_of (as_text (get "package" item)) (listed_names rest)
listed_names (_ ∷ rest) = listed_names rest

-- `metadata.get("packages", [])`, iterated
unfoldable pub metadata_packages : Option Json → M (List Json)
metadata_packages none = pure []
metadata_packages (some value) = or_raise (iterated value) (failure "TypeError")

-- `list(configuration.get("members", []))`, for a list
unfoldable pub members_of : Option Json → M (List Json)
members_of none = pure []
members_of (some value) = or_raise (as_list value) (failure "TypeError")

unfoldable pub roll_back_by_hand : Fields → M Json
unfolding name_of metadata_packages
roll_back_by_hand policy = do
  recovery ← latest_recovery_point policy
  metadata ← load_json (recovery <> "/recovery-point.json")
  packages ← metadata_packages (lookup "packages" metadata)
  before ← snapshot_runtime_state (listed_names packages)
  result ← rollback_from_recovery policy recovery before "manual rollback"
  now ← fresh (λ h. h.now)
  atomic_json state_path (
      obj (
        fields (
          ("schema_version", num (pos 2))
          ∷ ("status", text "rolled_back_manual")
          ∷ ("transaction_id", get "transaction_id" metadata)
          ∷ ("completed_at", text now)
          ∷ ("recovery_point", text recovery)
          ∷ ("last_error", null)
          ∷ [])))
  pure result

unfoldable pub manual_rollback : Bool → M Json
unfolding roll_back_by_hand
manual_rollback audit = do
  policy ← load_policy
  acquire
  holding_lock do
    result ← roll_back_by_hand policy
    audit_event audit "manual_rollback_completed"
    pure result

unfoldable pub restore_by_hand : Fields → M Json
unfolding members_of
restore_by_hand policy = do
  recovery ← latest_recovery_point policy
  metadata ← load_json (recovery <> "/recovery-point.json")
  configuration ←
      or_raise (as_obj (get "configuration" metadata))
        (runtime_error "Punt de recuperació sense configuració")
  restore_configuration recovery configuration
  members ← members_of (lookup "members" configuration)
  now ← fresh (λ h. h.now)
  let state = obj (
      fields (
        ("schema_version", num (pos 2))
        ∷ ("status", text "configuration_restored_manual")
        ∷ ("transaction_id", get "transaction_id" metadata)
        ∷ ("completed_at", text now)
        ∷ ("recovery_point", text recovery)
        ∷ ("members", arr (items members))
        ∷ ("last_error", null)
        ∷ []))
  atomic_json state_path state
  pure state

unfoldable pub restore_latest_configuration : Bool → M Json
unfolding restore_by_hand
restore_latest_configuration audit = do
  policy ← load_policy
  acquire
  holding_lock do
    state ← restore_by_hand policy
    audit_event audit "manual_configuration_restore_completed"
    pure state

abbrev pub interrupted_statuses : List String
interrupted_statuses = "installing" ∷ "validating" ∷ "rolling_back" ∷ []

abbrev pub is_interrupted : Json → Bool
is_interrupted (text status) = member status interrupted_statuses
is_interrupted _ = false

unfoldable pub recovery_value : Json → Option String
recovery_value (text path) = elim (starts_char b'/' path) [ true ↦ some path | false ↦ none ]
recovery_value _ = none

-- The part of `recover_interrupted` behind its two early returns.
unfoldable pub recover_from : Bool → Fields → M Json
unfolding name_of metadata_packages recovery_value
recover_from audit state = do
  recovery ←
      or_raise (recovery_value (get "recovery_point" state))
        (runtime_error "Transacció interrompuda sense punt de recuperació vàlid")
  policy ← load_policy
  metadata ← load_json (recovery <> "/recovery-point.json")
  packages ← metadata_packages (lookup "packages" metadata)
  let listed = listed_names packages
  agent ← service_active listed "xaac-agent" "xaac-agent.service"
  vpn ← service_active listed "xaac-thin-client-vpn" "xaac-vpn-manager.service"
  acquire
  holding_lock do
    result ←
        rollback_from_recovery policy recovery
          (record { thin_client_running = false; agent_active = agent; vpn_manager_active = vpn })
          "interrupted transaction recovery"
    now ← fresh (λ h. h.now)
    atomic_json state_path (
        obj (
          set_field "rollback" result (
            set_field "completed_at" (text now)
              (set_field "status" (text "rolled_back_after_interruption") state))))
    audit_event audit "interrupted_transaction_recovered"
    pure result

unfoldable pub some_result : M Json → M (Option Json)
some_result m = do result ← m; pure (some result)

unfoldable pub recover_if : Bool → Bool → Fields → M (Option Json)
unfolding some_result
recover_if true audit state = some_result (recover_from audit state)
recover_if false audit state = pure none

unfoldable pub recover_file : Bool → Bool → M (Option Json)
unfolding recover_if
recover_file false audit = pure none
recover_file true audit = do
  state ← load_json state_path
  recover_if (is_interrupted (get "status" state)) audit state

unfoldable pub recover_interrupted : Bool → M (Option Json)
unfolding recover_file
recover_interrupted audit = do there ← is_file state_path; recover_file there audit
