-- ===== src/Machine/Status.antt =====
-- The status that a state file holds, read off the record of effects.
use xaac_thin_client_os.Base.{
  Bool, true, false, ◌≡◌, String, Option, none, some, List, [], ◌∷◌, str_eq, if◌then◌else◌,
}
use xaac_thin_client_os.Json.{Json, null, obj, get}
use xaac_thin_client_os.Machine.{Event, wrote}
use xaac_thin_client_os.Machine.Quiet.{Ignores}

abbrev pub status_in : Json → Json
status_in (obj fs) = get "status" fs
status_in _ = null

-- The status that an effect writes to the file.
abbrev pub published_at : String → Event → Option Json
published_at path (wrote p v) = if str_eq p path then some (status_in v) else none
published_at path _ = none

-- The status in the file after these effects.
abbrev pub status_at : String → List Event → Json
status_at path [] = null
status_at path (e ∷ t) = elim (published_at path e) [ none ↦ status_at path t | some s ↦ s ]

abbrev pub is_unwritten : Event → Bool
is_unwritten (wrote p v) = false
is_unwritten e = true

module _ (path : String) (v : Json) where
  unwritten-status :
      (e : Event) (t : List Event)
      → is_unwritten e ≡ true
      → status_at path t ≡ v
      → status_at path (e ∷ t) ≡ v
  unwritten-status (wrote p u) t q h = cc
  unwritten-status _ t q h = h

  pub Ignores-status_at : Ignores is_unwritten (λ t. status_at path t ≡ v)
  Ignores-status_at = record { past = λ e q t h. unwritten-status e t q h }
