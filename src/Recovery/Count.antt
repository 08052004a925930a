-- ===== src/Recovery/Count.antt =====
-- The count of actions in the state file of the recovery runtime.
use xaac_thin_client_os.Base.{
  ℕ, suc, ℤ, pos, true, false, String, Option, none, some, ◌∷◌, ◌≡◌, refl, ap, Bool, not, is_empty,
  Bool-cases, inl, inr,
}
use xaac_thin_client_os.Json.{Json, Fields, num, text, obj, lookup, get, optional_text, json_eq}
use xaac_thin_client_os.Machine.{
  World, Event, wrote, ok, file, json, Disk, node_at, is_symlink, load_json, atomic_json, effect,
  fresh, gets, pure, ◌>>=◌, catch, try,
}
use xaac_thin_client_os.Machine.Present.{is_file_file, load_json_file}
use xaac_thin_client_os.Update.{to_int}
use xaac_thin_client_os.Recovery.Runtime.{
  recovery_state_path, write_action_state, recorded, status_of_action, action_fields,
}

-- The object that the state file holds.
abbrev pub Holds : Disk → Fields → Type 0
Holds d fs = node_at recovery_state_path d ≡ some (file (json (obj fs)))

recorded_lem : (fs : Fields) (w : World) → Holds w.disk fs → recorded true w ≡ (ok fs, w)
unfolding recorded catch try pure
recorded_lem fs w h = rw (load_json_file recovery_state_path fs w h) refl

is_symlink_lem :
    (fs : Fields) (w : World) → Holds w.disk fs → is_symlink recovery_state_path w ≡ (ok false, w)
unfolding is_symlink gets
is_symlink_lem fs w h = rw (h) refl

-- The machine after the state file was written.
abbrev written : World → Json → World
written w payload = record w {
  time = suc w.time;
  disk = (recovery_state_path, file (json payload)) ∷ w.disk;
  trace = wrote recovery_state_path payload ∷ w.trace;
}

atomic_json-writes :
    (payload : Json) (fs : Fields) (w : World)
    → ((t : ℕ) (e : Event) → w.host.fault t e ≡ none)
    → Holds w.disk fs
    → atomic_json recovery_state_path payload w ≡ (ok tt, written w payload)
unfolding atomic_json is_symlink gets effect ◌>>=◌ pure
atomic_json-writes payload fs w quiet h = rw (h, quiet) refl

to_int_lem : (n : ℤ) (w : World) → to_int (num n) w ≡ (ok n, w)
unfolding to_int pure
to_int_lem n w = refl

write_action_state-writes :
    (action : String) (error : Option String) (w : World) (fs : Fields) (n : ℕ)
    → ((t : ℕ) (e : Event) → w.host.fault t e ≡ none)
    → Holds w.disk fs
    → lookup "action_count" fs ≡ some (num (pos n))
    → write_action_state action error w ≡ (
      ok tt,
      written
          (record w { time = suc w.time })
          (obj (action_fields action error (w.host.now w.time) (pos n))),
    )
unfolding write_action_state ◌>>=◌ fresh
write_action_state-writes action error w fs n quiet h counted =
    let v : World = record w { time = suc w.time } in
    let payload = obj (action_fields action error (w.host.now w.time) (pos n)) in
    rw
      (
        is_file_file recovery_state_path (json (obj fs)) w h,
        is_symlink_lem fs w h,
        recorded_lem fs w h,
        counted,
        to_int_lem (pos n) v,
        atomic_json-writes payload fs v quiet h,
      )
      refl

-- An action that ended with an error that says something.
abbrev pub fails : Option String → Bool
fails none = false
fails (some why) = not (is_empty why)

-- The two statuses that `write_action_state` knows: `error` for an action that failed with a text
-- that is not empty, and `ready` for any other.
status_of_action-fails :
    (error : Option String)
    → (json_eq (text (status_of_action error)) (text "error") ≡ fails error)
      × (json_eq (text (status_of_action error)) (text "ready") ≡ not (fails error))
unfolding json_eq
status_of_action-fails none = (refl, refl)
status_of_action-fails (some why) = elim (Bool-cases (is_empty why)) [
  | inl empty ↦ rw (empty) (refl, refl)
  | inr said ↦ rw (said) (refl, refl)
]

-- On a host that refuses no effect, and where the state file is a file that counts `n` actions, the
-- recording of an action leaves a state file that counts one more, names the action and its error,
-- and has the status `error` if the error is a text that is not empty, and only then, and `ready`
-- otherwise.
pub write_action_state_lem :
    (action : String) (error : Option String) (w : World) (fs : Fields) (n : ℕ)
    → ((t : ℕ) (e : Event) → w.host.fault t e ≡ none)
    → Holds w.disk fs
    → lookup "action_count" fs ≡ some (num (pos n))
    → (after : Fields) × ((load_json recovery_state_path (write_action_state action error w).1).0
        ≡ ok after)
      × (get "action_count" after ≡ num (pos (suc n)))
      × (get "last_action" after ≡ text action)
      × (json_eq (get "status" after) (text "error") ≡ fails error)
      × (json_eq (get "status" after) (text "ready") ≡ not (fails error))
      × (get "last_error" after ≡ optional_text error)
write_action_state_lem action error w fs n quiet h counted =
    let v : World =
      written (record w { time = suc w.time })
        (obj (action_fields action error (w.host.now w.time) (pos n))) in
    (
      action_fields action error (w.host.now w.time) (pos n),
      rw (write_action_state-writes action error w fs n quiet h counted) (
          ap (λ r. r.0)
            (load_json_file recovery_state_path
              (action_fields action error (w.host.now w.time) (pos n)) v refl)),
      refl,
      refl,
      (status_of_action-fails error).0,
      (status_of_action-fails error).1,
      refl,
    )
