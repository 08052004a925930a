-- ===== src/Session/Profile.antt =====
-- The section `supervision` of the profile, as `load_session_supervisor_profile` checks it.
use xaac_thin_client_os.Base.{
  ℕ, ℤ, pos, pos_part, ltb_ℤ, Bool, true, false, not, String, Option, none, some, List, [], ◌∷◌,
  ◌||◌, ◌&&◌, member, all, map, starts_char, split_char,
}
use xaac_thin_client_os.Json.{Json, Fields, bool, num, text, end, field, get, as_list, json_eq}
use xaac_thin_client_os.Machine.{
  M, runtime_error, pure, or_raise, ◌>>=◌, ◌>>◌, raise_if, for_each, str_value,
}
use xaac_thin_client_os.Session.Restarts.{Settings}

abbrev bool_number : Bool → ℤ
bool_number true = pos 1
bool_number false = pos 0

-- `isinstance(v, int)`: a bool is an int
abbrev pub int_value : Json → Option ℤ
int_value (num n) = some n
int_value (bool b) = some (bool_number b)
int_value _ = none

abbrev keys : Fields → List String
keys end = []
keys (field k v fs) = k ∷ keys fs

abbrev pub expected_keys : List String
expected_keys =
    "user" ∷ "client_command" ∷ "supervisor_command" ∷ "error_screen_command"
    ∷ "startup_screen_command" ∷ "startup_screen_minimum_seconds" ∷ "startup_screen_timeout_seconds"
    ∷ "max_restarts" ∷ "restart_window_seconds" ∷ "initial_backoff_seconds"
    ∷ "maximum_backoff_seconds" ∷ "reset_after_seconds" ∷ "status_file" ∷ "shared_state_file"
    ∷ "event_directory" ∷ "thin_client_package" ∷ "state_heartbeat_seconds" ∷ "max_events"
    ∷ "voluntary_exit_codes" ∷ []

abbrev path_keys : List String
path_keys =
    "client_command" ∷ "supervisor_command" ∷ "error_screen_command" ∷ "startup_screen_command"
    ∷ "status_file" ∷ "shared_state_file" ∷ "event_directory" ∷ []

-- `set(cfg) != expected_keys`
abbrev has_other_keys : Fields → Bool
has_other_keys cfg =
    not
      (all (λ k. member k expected_keys) (keys cfg) && all (λ k. member k (keys cfg)) expected_keys)

abbrev has_other : String → String → Fields → Bool
has_other key value cfg = not (json_eq (get key cfg) (text value))

-- `_safe_absolute`
unfoldable pub safe_absolute : Fields → String → M (Unit {0})
safe_absolute cfg key = do
  path ← str_value (get key cfg)
  raise_if (not (starts_char b'/' path) || member ".." (split_char b'/' path))
      (runtime_error "Ruta insegura")

unfoldable pub check_names : Fields → M (Unit {0})
unfolding safe_absolute
check_names cfg = do
  raise_if (has_other_keys cfg) (runtime_error "Configuració del supervisor incompleta")
  raise_if
      (has_other "user" "xaac-kiosk" cfg || has_other "thin_client_package" "xaac-thinclient" cfg)
      (runtime_error "La supervisió ha d'usar xaac-kiosk i xaac-thinclient")
  for_each path_keys (safe_absolute cfg)
  raise_if (has_other "shared_state_file" "/var/lib/xaac/thin-client/state/state.json" cfg)
      (runtime_error "Ruta d'estat compartit incompatible")
  raise_if (has_other "event_directory" "/run/xaac/thin-client/events" cfg)
      (runtime_error "Ruta d'events compartits incompatible")

unfoldable pub positive : Fields → String → M ℤ
positive cfg key = do
  value ← or_raise (int_value (get key cfg)) (runtime_error "Valor de supervisió invàlid")
  raise_if (not (ltb_ℤ (pos 0) value)) (runtime_error "Valor de supervisió invàlid")
  pure value

-- The numbers of the section.
pub record Limits : Type 0 where
  pub restarts : ℤ
  pub window_seconds : ℤ
  pub initial_seconds : ℤ
  pub maximum_seconds : ℤ
  pub reset_seconds : ℤ
  pub minimum_shown : ℤ
  pub timeout_shown : ℤ
  pub heartbeat : ℤ
  pub events : ℤ

unfoldable pub limits_of : Fields → M Limits
unfolding positive
limits_of cfg = do
  restarts ← positive cfg "max_restarts"
  window ← positive cfg "restart_window_seconds"
  initial ← positive cfg "initial_backoff_seconds"
  maximum ← positive cfg "maximum_backoff_seconds"
  reset ← positive cfg "reset_after_seconds"
  shown ← positive cfg "startup_screen_minimum_seconds"
  timeout ← positive cfg "startup_screen_timeout_seconds"
  heartbeat ← positive cfg "state_heartbeat_seconds"
  events ← positive cfg "max_events"
  pure (record {
    restarts = restarts;
    window_seconds = window;
    initial_seconds = initial;
    maximum_seconds = maximum;
    reset_seconds = reset;
    minimum_shown = shown;
    timeout_shown = timeout;
    heartbeat = heartbeat;
    events = events;
  })

abbrev within : ℕ → ℕ → ℤ → Bool
within low high n = not (ltb_ℤ n (pos low)) && not (ltb_ℤ (pos high) n)

unfoldable pub check_limits : Limits → M (Unit {0})
check_limits l = do
  raise_if (ltb_ℤ l.maximum_seconds l.initial_seconds || ltb_ℤ (pos 20) l.restarts)
      (runtime_error "Política de reinici insegura")
  raise_if (ltb_ℤ l.timeout_shown l.minimum_shown)
      (runtime_error "Temporització de pantalla d'espera invàlida")
  raise_if (not (within 5 300 l.heartbeat) || not (within 1 4096 l.events))
      (runtime_error "Límits del contracte local invàlids")

abbrev is_code : Json → Bool
is_code v = elim (int_value v) [ none ↦ false | some n ↦ within 0 255 n ]

abbrev code_of : Json → ℕ
code_of v = elim (int_value v) [ none ↦ 0 | some n ↦ pos_part n ]

abbrev codes_in : Option (List Json) → List Json
codes_in none = []
codes_in (some vs) = vs

abbrev is_nothing : List Json → Bool
is_nothing [] = true
is_nothing (v ∷ vs) = false

unfoldable pub voluntary_codes : Fields → M (List ℕ)
voluntary_codes cfg = do
  let codes = codes_in (as_list (get "voluntary_exit_codes" cfg))
  raise_if (is_nothing codes || not (all is_code codes))
      (runtime_error "Codis d'eixida voluntària invàlids")
  pure (map code_of codes)

abbrev pub settings_of : Limits → List ℕ → Settings
settings_of l codes = record {
  max_restarts = pos_part l.restarts;
  window = pos_part l.window_seconds;
  reset_after = pos_part l.reset_seconds;
  initial_backoff = pos_part l.initial_seconds;
  max_backoff = pos_part l.maximum_seconds;
  voluntary = codes;
}

abbrev is_number : Json → Bool
is_number (num n) = true
is_number _ = false

-- The numbers of the section that the loop of the script works on.
abbrev script_keys : List String
script_keys =
    "max_restarts" ∷ "restart_window_seconds" ∷ "initial_backoff_seconds"
    ∷ "maximum_backoff_seconds" ∷ "reset_after_seconds" ∷ []

-- A Boolean passes the checks as a number, and fills the script with the text `True`.
abbrev pub has_numbers : Fields → Bool
has_numbers cfg =
    all (λ k. is_number (get k cfg)) script_keys
    && all is_number (codes_in (as_list (get "voluntary_exit_codes" cfg)))

abbrev pub settings_if : Bool → Settings → Option Settings
settings_if true c = some c
settings_if false c = none

-- The checks of the section, and the settings that the script is filled with: `none` where one of
-- its numbers is a Boolean, and the shell cannot compute with what stands there.
unfoldable pub supervision : Fields → M (Option Settings)
unfolding check_names limits_of check_limits voluntary_codes
supervision cfg = do
  check_names cfg
  limits ← limits_of cfg
  check_limits limits
  codes ← voluntary_codes cfg
  pure (settings_if (has_numbers cfg) (settings_of limits codes))
