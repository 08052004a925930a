-- ===== src/Update/Crash.antt =====
-- What a crash leaves behind. A record of effects may be cut off at any point; the state file then
-- decides whether `recover_interrupted` acts at the next boot.
pub mod Phases
pub mod Stages
pub mod Safety
use xaac_thin_client_os.Base.{
  Bool, true, false, String, Option, none, some, List, [], ◌∷◌, ◌≡◌, ◌&&◌, ◌||◌, not, str_eq,
  member, if◌then◌else◌,
}
use xaac_thin_client_os.Json.{Json, null, text, obj, get}
use xaac_thin_client_os.Machine.{Event, ran, wrote}
use xaac_thin_client_os.Update.Policy.{state_path}
use xaac_thin_client_os.Update.Manual.{is_interrupted}

abbrev pub status_in : Json → Json
status_in (obj fs) = get "status" fs
status_in _ = null

-- The status that an effect writes to the state file.
abbrev pub published : Event → Option Json
published (wrote p v) = if str_eq p state_path then some (status_in v) else none
published _ = none

-- dpkg changes installed packages.
abbrev pub changes_packages : Event → Bool
changes_packages (ran (c ∷ a ∷ rest)) =
    str_eq c "/usr/bin/dpkg" && (str_eq a "--unpack" || str_eq a "--configure")
changes_packages _ = false

-- The status in the state file after these effects.
abbrev pub status_of : List Event → Json
status_of [] = null
status_of (e ∷ t) = elim (published e) [ none ↦ status_of t | some s ↦ s ]

abbrev pub verdicts : List String
verdicts = "confirmed" ∷ "rolled_back" ∷ "rollback_failed" ∷ []

abbrev pub is_verdict : Json → Bool
is_verdict (text s) = member s verdicts
is_verdict _ = false

-- Packages were changed, and no verdict was written since.
abbrev pub unsettled : List Event → Bool
unsettled [] = false
unsettled (e ∷ t) = elim (published e) [
  | none ↦ changes_packages e || unsettled t
  | some s ↦ not (is_verdict s) && unsettled t
]

abbrev pub IsCovered : List Event → Type 0
IsCovered t = unsettled t ≡ true → is_interrupted (status_of t) ≡ true

-- Wherever the effects are cut off.
abbrev pub IsCrashSafe : List Event → Type 0
IsCrashSafe [] = Unit
IsCrashSafe (e ∷ t) = IsCovered (e ∷ t) × IsCrashSafe t
