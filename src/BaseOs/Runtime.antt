-- ===== src/BaseOs/Runtime.antt =====
-- The files that the base updater works on: its policy, its state and its audit log.
use xaac_thin_client_os.Base.{
  pos, Bool, true, false, not, String, Option, none, some, List, [], ◌∷◌, ◌||◌, ◌==◌, str_eq,
  is_empty, starts_char, strip, strip_char, cut, lines, if◌then◌else◌,
}
use xaac_thin_client_os.Json.{Json, Fields, bool, num, text, obj, end, get, set_field, json_eq}
use xaac_thin_client_os.Machine.{
  M, Exc, runtime_error, failure, pure, raise, ◌>>=◌, ◌>>◌, raise_if, try, catch, effect, fresh,
  locked, audited, load_json, atomic_json, is_file, read_text, run,
}
use xaac_thin_client_os.Update.{path_setting, holding_lock}

abbrev pub plan_path : String
plan_path = "/var/lib/xaac-update/base-os-plan.json"

abbrev pub reboot_path : String
reboot_path = "/var/run/reboot-required"

-- `_load_json` and `_atomic_json` are those of the other runtimes.
abbrev is_obj : Json → Bool
is_obj (obj fs) = true
is_obj _ = false

abbrev section : Json → Fields
section (obj fs) = fs
section _ = end

abbrev is_not : String → Json → Fields → Bool
is_not key value policy = not (json_eq (get key policy) value)

abbrev pub base_policy_path : String
base_policy_path = "/etc/xaac/update/base-os-policy.json"

-- `rules.get(key) is not False`: the number 0 is not `False`
abbrev not_false : String → Fields → Bool
not_false key rules = elim (get key rules) [ bool false ↦ false | _ ↦ true ]

abbrev relaxed : Fields → Bool
relaxed rules =
    not_false "allow_release_change" rules
    || not_false "allow_downgrade" rules
    || not_false "allow_removals" rules
    || not_false "automatic_reboot" rules
    || not_false "automatic_rollback" rules

unfoldable pub load_base_policy : M Fields
load_base_policy = do
  policy ← load_json base_policy_path
  raise_if
      (is_not "schema_version" (num (pos 1)) policy
        || is_not "update_id" (text "xaac-base-os-update") policy
        || is_not "phase" (text "10.6") policy)
      (runtime_error "Política d'actualització del sistema base no compatible")
  let platform = get "platform" policy
  let rules = get "policy" policy
  raise_if (not (is_obj platform) || not (is_obj rules) || not (is_obj (get "outputs" policy)))
      (runtime_error "Política 10.6 incompleta")
  raise_if
      (is_not "debian_major" (num (pos 13)) (section platform)
        || is_not "suite" (text "trixie") (section platform)
        || is_not "architecture" (text "amd64") (section platform))
      (runtime_error "La política 10.6 no correspon a Debian 13/trixie amd64")
  raise_if (is_not "apt_operation" (text "upgrade-with-new-pkgs") (section rules))
      (runtime_error "Operació APT 10.6 no autoritzada")
  raise_if (relaxed (section rules))
      (runtime_error "La política 10.6 relaxa proteccions obligatòries")
  pure policy

-- `_audit`: a line of the log, with the time
unfoldable pub audit_line : Fields → String → M (Unit {0})
audit_line policy event = do
  path_setting policy "outputs" "audit"
  fresh (λ h. h.now)
  effect (audited event) (λ d. d)

unfoldable pub previous_state : String → Bool → M Fields
previous_state path false = pure end
previous_state path true = catch (load_json path) (λ why. pure end)

-- `d.update(kvs)`
abbrev pub update : List (String × Json) → Fields → Fields
update [] fs = fs
update ((k, v) ∷ kvs) fs = update kvs (set_field k v fs)

abbrev pub identity : Fields → List (String × Json)
identity policy =
    ("schema_version", num (pos 1))
    ∷ ("update_id", text "xaac-base-os-update")
    ∷ ("phase", text "10.6")
    ∷ ("hardware_profile", get "hardware_profile" policy)
    ∷ []

-- `_write_state`
unfoldable pub write_state : Fields → List (String × Json) → M (Unit {0})
unfolding previous_state
write_state policy updates = do
  path ← path_setting policy "outputs" "state"
  there ← is_file path
  state ← previous_state path there
  atomic_json path (obj (update updates (update (identity policy) state)))

-- A line of /etc/os-release: the last assignment of a name counts.
release_line : String → List (String × String) → List (String × String)
release_line line values = elim (cut b'=' line) [
  | none ↦ values
  | some (key, value) ↦ (key, strip_char b'"' (strip value)) ∷ values
]

release_values : List (String × String) → List String → List (String × String)
unfolding release_line
release_values values [] = values
release_values values (line ∷ rest) =
    release_values
      (if is_empty line || starts_char b'#' line then values else release_line line values) rest

unfoldable pub unreadable : {A : Type 0} → String → Exc → M A
unreadable why (runtime_error s) = raise (runtime_error s)
unreadable why (failure s) = raise (if str_eq s "OSError" then runtime_error why else failure s)

unfoldable pub os_release : M (List (String × String))
unfolding release_values unreadable
os_release =
    try (read_text "/etc/os-release") (λ s. pure (release_values [] (lines s)))
      (unreadable "/etc/os-release")

unfoldable pub debian_version : M String
unfolding unreadable
debian_version =
    try (read_text "/etc/debian_version") (λ s. pure (strip s)) (unreadable "/etc/debian_version")

unfoldable pub architecture : M String
architecture = do
  result ← run ("/usr/bin/dpkg" ∷ "--print-architecture" ∷ [])
  raise_if (not (result.returncode == 0) || is_empty (strip result.stdout))
      (runtime_error "No s'ha pogut determinar l'arquitectura Debian")
  pure (strip result.stdout)

-- `values.get(k)`
abbrev pub value_of : String → List (String × String) → Option String
value_of k [] = none
value_of k ((j, v) ∷ rest) = if str_eq j k then some v else value_of k rest

-- `except BlockingIOError`
unfoldable pub lock_refused : Exc → M (Unit {0})
lock_refused (runtime_error why) = raise (runtime_error why)
lock_refused (failure why) = raise (
    if str_eq why "BlockingIOError"
    then runtime_error "Ja hi ha una actualització del sistema base en curs"
    else failure why)

unfoldable pub acquire_base : M (Unit {0})
unfolding lock_refused
acquire_base = try (effect locked (λ d. d)) pure lock_refused

-- `with _exclusive_lock(): m`
unfoldable pub exclusive : {A : Type 0} → M A → M A
unfolding acquire_base holding_lock
exclusive m = do acquire_base; holding_lock m
