-- ===== src/Maintenance/Runtime.antt =====
-- The policy of the maintenance runtime, and what it asks the machine.
use xaac_thin_client_os.Base.{
  ℕ, ◌+◌, ◌-◌, ◌*◌, ◌/◌, ◌%◌, pos, Bool, true, false, not, String, Option, none, some, List, [],
  ◌∷◌, ◌++◌, ◌||◌, ◌&&◌, ◌<>◌, ◌==◌, ltb, leb, str_eq, is_empty, starts_with, contains, has_char,
  strip, strip_char, starts_char, cut, words, lines, join_with, decimal, filter, if◌then◌else◌,
}
use Prim.Native.Char.{code}
use xaac_thin_client_os.Json.{Json, Fields, bool, num, text, obj, get, json_eq}
use xaac_thin_client_os.Machine.{
  M, Exc, runtime_error, failure, pure, raise, gets, ◌>>=◌, ◌>>◌, raise_if, try, run, Completed,
  read_text, load_json, installed_version,
}
use xaac_thin_client_os.Maintenance.Patterns.{sanitize_text}

abbrev pub maintenance_policy_path : String
maintenance_policy_path = "/etc/xaac/maintenance/policy.json"

abbrev unlike : String → Json → Fields → Bool
unlike key value policy = not (json_eq (get key policy) value)

-- `is` a Boolean: a number that is equal to it does not count
abbrev pub is_bool : Bool → Json → Bool
is_bool true (bool b) = b
is_bool false (bool b) = not b
is_bool b v = false

abbrev exposes : Json → Bool
exposes (obj privacy) =
    not (is_bool true (get "sanitize_logs" privacy))
    || not (is_bool false (get "include_configuration_contents" privacy))
    || not (is_bool false (get "include_private_keys" privacy))
    || not (is_bool false (get "include_credentials" privacy))
    || not (is_bool false (get "include_vpn_secrets" privacy))
exposes v = true

unfoldable pub load_maintenance_policy : M Fields
load_maintenance_policy = do
  policy ← load_json maintenance_policy_path
  raise_if
      (unlike "schema_version" (num (pos 1)) policy
        || unlike "maintenance_id" (text "xaac-maintenance") policy
        || unlike "phase" (text "10.3") policy)
      (runtime_error "Política de manteniment no compatible")
  raise_if (exposes (get "privacy" policy)) (runtime_error "Política de privacitat insegura")
  pure policy

-- `except OSError: return value`
unfoldable pub unless_missing : {A : Type 0} → A → Exc → M A
unless_missing a (runtime_error s) = raise (runtime_error s)
unless_missing a (failure s) = if str_eq s "OSError" then pure a else raise (failure s)

-- A line of /etc/os-release: the last assignment of a name counts, and comes first.
unfoldable pub release_entry : String → List (String × String) → List (String × String)
release_entry line values = elim (cut b'=' line) [
  | none ↦ values
  | some (key, raw) ↦
      if starts_char b'#' line then values else (key, strip_char b'"' (strip raw)) ∷ values
]

unfoldable pub release_entries : List (String × String) → List String → List (String × String)
unfolding release_entry
release_entries values [] = values
release_entries values (line ∷ rest) = release_entries (release_entry line values) rest

-- `_os_release`
unfoldable pub release_names : M (List (String × String))
unfolding release_entries unless_missing
release_names =
    try (read_text "/etc/os-release") (λ s. pure (release_entries [] (lines s))) (unless_missing [])

abbrev or_missing : Option String → String
or_missing none = "no instal·lat"
or_missing (some v) = v

unfoldable pub package_version_text : String → M String
package_version_text package_name = do
  version ← installed_version package_name
  pure (or_missing version)

pub record UnitInfo : Type 0 where
  pub load : String
  pub active : String
  pub enabled : String

-- The first three lines, padded with `unknown`.
abbrev padded : List String → UnitInfo
padded (a ∷ b ∷ c ∷ rest) = record { load = a; active = b; enabled = c }
padded (a ∷ b ∷ []) = record { load = a; active = b; enabled = "unknown" }
padded (a ∷ []) = record { load = a; active = "unknown"; enabled = "unknown" }
padded [] = record { load = "not-found"; active = "unknown"; enabled = "unknown" }

unfoldable pub unit_info : String → M UnitInfo
unit_info unit = do
  show ← run (
      "/usr/bin/systemctl" ∷ "show" ∷ "--property=LoadState,ActiveState,UnitFileState" ∷ "--value"
      ∷ unit ∷ [])
  pure (padded (if show.returncode == 0 then lines show.stdout else []))

abbrev uptime_of : ℕ → String
uptime_of seconds =
    let days = seconds / 86400 in
    let hours = seconds % 86400 / 3600 in
    let minutes = seconds % 3600 / 60 in
    let clock = decimal hours <> (" h " <> (decimal minutes <> " min")) in
    if days == 0 then clock else decimal days <> (" d " <> clock)

abbrev first_word : List String → Option String
first_word [] = none
first_word (w ∷ ws) = some w

-- `int(float(words[0]))`: a missing word or a text that is no number is `none`
unfoldable pub uptime_seconds : String → M (Option ℕ)
uptime_seconds content =
    gets (λ w. elim (first_word (words content)) [ none ↦ none | some s ↦ w.host.int_of_float s ])

abbrev uptime_or_unknown : Option ℕ → String
uptime_or_unknown none = "desconegut"
uptime_or_unknown (some n) = uptime_of n

unfoldable pub uptime_text : M String
unfolding uptime_seconds unless_missing
uptime_text =
    try (read_text "/proc/uptime") (λ s. do n ← uptime_seconds s; pure (uptime_or_unknown n))
      (unless_missing "desconegut")

unfoldable pub boot_time : M String
boot_time = do
  result ← run ("/usr/bin/uptime" ∷ "-s" ∷ [])
  pure (
      if result.returncode == 0 && not (is_empty (strip result.stdout))
      then strip result.stdout
      else "desconegut")

abbrev is_address : String → Bool
is_address value = has_char b'/' value && not (starts_with "fe80:" value)

unfoldable pub addresses_in : List String → List String
addresses_in (device ∷ state ∷ values) = if str_eq device "lo" then [] else filter is_address values
addresses_in _ = []

unfoldable pub addresses : List String → List String
unfolding addresses_in
addresses [] = []
addresses (line ∷ rest) = addresses_in (words line) ++ addresses rest

abbrev address_text : List String → String
address_text [] = "sense adreça activa"
address_text (a ∷ rest) = join_with ", " (a ∷ rest)

unfoldable pub ip_summary : M String
unfolding addresses
ip_summary = do
  result ← run ("/usr/sbin/ip" ∷ "-brief" ∷ "address" ∷ "show" ∷ "up" ∷ [])
  pure (
      if result.returncode == 0
      then address_text (addresses (lines result.stdout))
      else "desconeguda")

-- `s.isdigit()` and `int(s)`, for ASCII digits
unfoldable pub number_from : ℕ → String → Option ℕ
number_from n String.[] = some n
number_from n (String.◌∷◌ c s) =
    let more = number_from (n * 10 + (code c - b'0')) s in
    if leb b'0' (code c) && leb (code c) b'9' then more else none

unfoldable pub digits_of : String → Option ℕ
unfolding number_from
digits_of s = if is_empty s then none else number_from 0 s

abbrev noted : String → Option ℕ → List (String × ℕ) → List (String × ℕ)
noted key none values = values
noted key (some n) values = (key, n) ∷ values

abbrev number_word : List String → Option ℕ
number_word [] = none
number_word (w ∷ ws) = digits_of w

unfoldable pub memory_entry : String → List (String × ℕ) → List (String × ℕ)
unfolding digits_of
memory_entry line values = elim (cut b':' line) [
  | none ↦ values
  | some (key, raw) ↦ noted key (number_word (words raw)) values
]

unfoldable pub memory_entries : List (String × ℕ) → List String → List (String × ℕ)
unfolding memory_entry
memory_entries values [] = values
memory_entries values (line ∷ rest) = memory_entries (memory_entry line values) rest

abbrev amount : String → List (String × ℕ) → ℕ
amount key [] = 0
amount key ((k, n) ∷ rest) = if str_eq k key then n else amount key rest

-- `f"{(a - b) // 1024}"`: where more is available than there is, Python rounds away from zero
abbrev mebibytes_left : ℕ → ℕ → String
mebibytes_left a b =
    if ltb a b then "-" <> decimal ((b - a + 1023) / 1024) else decimal ((a - b) / 1024)

abbrev memory_text : List (String × ℕ) → String
memory_text values =
    let total = amount "MemTotal" values in
    if total == 0
    then "desconeguda"
    else mebibytes_left total (amount "MemAvailable" values)
      <> (" MiB usats / " <> (decimal (total / 1024) <> " MiB"))

unfoldable pub memory_summary : M String
unfolding memory_entries unless_missing
memory_summary =
    try (read_text "/proc/meminfo") (λ s. pure (memory_text (memory_entries [] (lines s))))
      (unless_missing "desconeguda")

abbrev rest_of : List String → List String
rest_of [] = []
rest_of (s ∷ ss) = ss

abbrev is_zram : List String → Bool
is_zram [] = false
is_zram (name ∷ ws) = contains "zram" name

abbrev number_or_zero : String → ℕ
number_or_zero s = elim (digits_of s) [ none ↦ 0 | some n ↦ n ]

-- The sizes in the third and the fourth column.
abbrev zram_line : List String → ℕ × ℕ → ℕ × ℕ
zram_line (a ∷ b ∷ size ∷ used ∷ ws) (total, taken) =
    (number_or_zero size + total, number_or_zero used + taken)
zram_line _ sums = sums

unfoldable pub zram_sums : List String → ℕ × ℕ
unfolding digits_of
zram_sums [] = (0, 0)
zram_sums (line ∷ rest) = zram_line (words line) (zram_sums rest)

abbrev zram_text : List String → String
zram_text [] = "no actiu"
zram_text (line ∷ rest) =
    let sums = zram_sums (line ∷ rest) in
    decimal (sums.1 / 1024) <> (" MiB usats / " <> (decimal (sums.0 / 1024) <> " MiB"))

unfoldable pub zram_summary : M String
unfolding unless_missing zram_sums
zram_summary =
    try (read_text "/proc/swaps")
      (λ s. pure (zram_text (filter (λ line. is_zram (words line)) (rest_of (lines s)))))
      (unless_missing "desconegut")

-- `_disk_usage`: total, free, and the share that is used
unfoldable pub disk_usage : M (ℕ × ℕ × ℕ)
disk_usage = gets (λ w.
    let (total, used, free) = w.host.root_usage w.time in
    (total, free, (if total == 0 then 100 else w.host.percent used total)))

abbrev output_of : Completed → String
output_of result = strip (if is_empty result.stdout then result.stderr else result.stdout)

-- A text, or what is said where there is none.
abbrev pub or_text : String → String → String
or_text s other = if is_empty s then other else s

-- The output of a command, sanitized.
unfoldable pub shown : List String → M String
shown command = do result ← run command; pure (sanitize_text (output_of result))
