-- ===== src/BaseOs/Apply/Announced.antt =====
-- The installation and the state file: what the file says while apt changes packages, and in the end.
pub mod Frame
use xaac_thin_client_os.Base.{
  Bool, true, false, String, List, [], ◌∷◌, ◌≡◌, refl, inl, inr, str_eq, eq_refl, ◌∙◌,
  if◌then◌else◌, arith, Bool-cases,
}
use xaac_thin_client_os.Json.{Json, Fields, text, get, set_field}
use xaac_thin_client_os.Json.Lookup.{get-set_field, get-set_other}
use xaac_thin_client_os.Machine.{World, Event, wrote, ok, ◌>>=◌, atomic_json}
use xaac_thin_client_os.Machine.Keeps.{Keeps, keeps_rules}
use xaac_thin_client_os.Machine.Quiet.{Ignores, look_rules}
use xaac_thin_client_os.Machine.Yields.{
  Yields, Yields-keeps, Yields-bind, Yields-effect, Yields-run, Yields-known, either_way,
}
use xaac_thin_client_os.Machine.Status.{status_at}
use xaac_thin_client_os.Update.{path_setting}
use xaac_thin_client_os.BaseOs.Runtime.{write_state, update, identity}
use xaac_thin_client_os.BaseOs.Looks.{Keeps-previous_state}
use xaac_thin_client_os.BaseOs.Quiet.{is_install, is_other, Keeps-repair_install}
use xaac_thin_client_os.BaseOs.Apply.{
  install_plan, install_upgrade, install_command, apply_base_update,
}
use xaac_thin_client_os.BaseOs.Apply.Announced.Frame.{Keeps-apply_base_update}

-- Where the policy keeps the state.
abbrev pub StateAt : Fields → String → Type 0
StateAt policy path = (v : World) → path_setting policy "outputs" "state" v ≡ (ok path, v)

-- Whenever apt was told to install, the state file said `installing`.
abbrev pub IsAnnounced : String → List Event → Type 0
IsAnnounced path [] = Unit
IsAnnounced path (e ∷ t) =
    (is_install e ≡ true → status_at path t ≡ text "installing") × IsAnnounced path t

not_install : (e : Event) (A : Type 0) → is_other e ≡ true → is_install e ≡ true → A
not_install e A q told = absurd (ground (arith, q, told))

Ignores-IsAnnounced : (path : String) → Ignores is_other (IsAnnounced path)
Ignores-IsAnnounced path = record { past = λ e q t h. (λ told. not_install e _ q told, h) }

-- No key of the list is `status`.
abbrev pub spares_status : List (String × Json) → Bool
spares_status [] = true
spares_status ((k, v) ∷ kvs) = if str_eq k "status" then false else spares_status kvs

get-update :
    (kvs : List (String × Json)) (fs : Fields)
    → spares_status kvs ≡ true
    → get "status" (update kvs fs) ≡ get "status" fs
get-update [] fs h = refl
get-update ((k, v) ∷ kvs) fs h = elim (Bool-cases (str_eq k "status")) [
  | inl same ↦ absurd (ground (arith, same, h))
  | inr other ↦
      get-update kvs (set_field k v fs) (ground (arith, other, h))
      ∙ get-set_other k "status" v fs other
]

module _ (path : String) (P : List Event → Type 0) (i : Ignores is_other P) where
  -- `_write_state` with a status leaves that status in the file.
  pub Yields-write_state :
      (policy : Fields) (v : Json) (kvs : List (String × Json))
      → StateAt policy path
      → spares_status kvs ≡ true
      → Yields P (write_state policy (("status", v) ∷ kvs)) (λ t. P t × (status_at path t ≡ v)) P
  unfolding write_state atomic_json
  Yields-write_state policy v kvs at clear = Yields-known _ _ path at (
      Yields-bind _ _ (Yields-keeps _ (search look_rules)) (λ there.
        Yields-bind _ _ (Yields-keeps _ (Keeps-previous_state path there)) (λ state.
          Yields-bind _ _ (Yields-keeps _ (search look_rules)) (λ unsafe.
            Yields-bind _ _ (Yields-keeps _ (search look_rules)) (λ _.
              Yields-effect (wrote path _) _ (λ t h. (
                i.past (wrote path _) refl t h,
                rw (eq_refl path, status_at)
                    (get-update kvs (set_field "status" v (update (identity policy) state)) clear
                      ∙ get-set_field "status" v (update (identity policy) state)),
              )))))))

module _ (policy : Fields) (path : String) (at : StateAt policy path) where
  Keeps-install_plan : Keeps (IsAnnounced path) (install_plan policy)
  unfolding install_plan install_upgrade
  Keeps-install_plan =
      either_way _
        (Yields-bind _ _ (Yields-keeps _ (search keeps_rules)) (λ now.
          Yields-bind _ _
            (Yields-write_state path (IsAnnounced path) (Ignores-IsAnnounced path) policy
              (text "installing") _ at refl)
            (λ _.
              Yields-bind _ _ (Yields-run install_command (λ t h. (λ _. h.1, h.0)))
                (λ result. Yields-keeps _ (Keeps-repair_install (Ignores-IsAnnounced path) _)))))
        (λ t h. h) (λ t h. h)

-- The base updater tells apt to install only while the state file says `installing`, wherever the
-- run is cut off and whatever the host answers, if the policy names the state file.
pub apply_base_update-IsAnnounced :
    (policy : Fields) (path : String) (w : World)
    → StateAt policy path
    → IsAnnounced path w.trace
    → IsAnnounced path (apply_base_update policy w).1.trace
apply_base_update-IsAnnounced policy path w at h =
    (Keeps-apply_base_update (Ignores-IsAnnounced path) policy
        (Keeps-install_plan policy path at)).at
      w h
