-- ===== src/Update/Manual/Boot.antt =====
-- The recovery at boot: what `recover_interrupted` leaves behind is not recovered again.
use xaac_thin_client_os.Base.{
  Bool, true, false, String, Option, none, some, ◌≡◌, refl, ◌∙◌, ◌⊎◌, inl, inr,
}
use xaac_thin_client_os.Json.{Json, Fields, text, obj, null, bool, num, arr, get, set_field}
use xaac_thin_client_os.Json.Lookup.{get-set_field, get-set_other}
use xaac_thin_client_os.Machine.{
  World, file, json, M, Result, ok, err, ◌>>=◌, pure, raise, effect, apply_effect, put, parsed,
  document, content_of, wrote, gets, node_at, is_file, load_json, atomic_json, target_of, audited,
}
use xaac_thin_client_os.Update.Policy.{state_path, audit_event, holding_lock, release}
use xaac_thin_client_os.Update.Manual.{
  recover_interrupted, recover_from, recover_if, recover_file, some_result, is_interrupted,
}
use xaac_thin_client_os.Machine.Ends.{
  Ends, Stays, Ends-bind, Ends-then, Stays-bind, Ends-try, Ends-raise, Stays-pure,
}
use xaac_thin_client_os.Machine.Present.{is_file_file, load_json_file}

-- The state file is there, with this content.
abbrev pub Holds : Fields → World → Type 0
Holds state w = node_at state_path w.disk ≡ some (file (json (obj state)))

-- The state file is there, and no update was cut short by its word.
abbrev pub IsAtRest : World → Type 0
IsAtRest w = (state : Fields) × (Holds state w × (is_interrupted (get "status" state) ≡ false))

Stays-release : Stays IsAtRest release
unfolding release
Stays-release = record { at = λ w p. p }

settled-audit :
    (o : Option String) (name : String) (w : World)
    → IsAtRest w
    → IsAtRest (apply_effect o (audited name) (λ d. d) w).1
settled-audit none name w p = p
settled-audit (some why) name w p = p

Stays-audit_event : (b : Bool) (name : String) → Stays IsAtRest (audit_event b name)
unfolding audit_event effect
Stays-audit_event true name = record {
  at = λ w p. settled-audit (w.host.fault w.time (audited name)) name w p;
}
Stays-audit_event false name = Stays-pure tt

ends-write :
    (o : Option String) (state : Fields) (w : World) (u : Unit {0})
    → is_interrupted (get "status" state) ≡ false
    → (apply_effect o (wrote state_path (obj state)) (put state_path (file (json (obj state)))) w).0
      ≡ ok u
    → IsAtRest
        (apply_effect o
          (wrote state_path (obj state))
          (put state_path (file (json (obj state))))
          w).1
ends-write none state w u rest e = (state, (refl, rest))
ends-write (some why) state w u rest e = cc

Ends-atomic_json :
    (state : Fields)
    → is_interrupted (get "status" state) ≡ false
    → Ends IsAtRest (atomic_json state_path (obj state))
unfolding atomic_json effect
Ends-atomic_json state rest = Ends-bind _ _ (λ _. Ends-bind _ _ (λ _. record {
  at = λ w u e. ends-write (w.host.fault w.time (wrote state_path (obj state))) state w u rest e;
}))

recovered_status :
    (result now : Json) (state : Fields)
    → get "status" (
        set_field "rollback" result (
          set_field "completed_at" now
            (set_field "status" (text "rolled_back_after_interruption") state)))
      ≡ text "rolled_back_after_interruption"
recovered_status result now state =
    rw
      (
        get-set_other "rollback" "status" result
            (set_field "completed_at" now
              (set_field "status" (text "rolled_back_after_interruption") state))
            refl,
        get-set_other "completed_at" "status" now
            (set_field "status" (text "rolled_back_after_interruption") state) refl,
        get-set_field "status" (text "rolled_back_after_interruption") state,
      )
      refl

recovered-rests :
    (result now : Json) (state : Fields)
    → is_interrupted (
        get "status" (
          set_field "rollback" result (
            set_field "completed_at" now
              (set_field "status" (text "rolled_back_after_interruption") state))))
      ≡ false
recovered-rests result now state = rw (recovered_status result now state) refl

Ends-holding_lock : {A : Type 0} (m : M A) → Ends IsAtRest m → Ends IsAtRest (holding_lock m)
unfolding holding_lock
Ends-holding_lock m p =
    Ends-try _ _ _ p (λ a. Stays-bind _ _ Stays-release (λ _. Stays-pure a))
      (λ x. Ends-bind _ _ (λ _. Ends-raise x))

some_result-Ends : {P : World → Type 0} (m : M Json) → Ends P m → Ends P (some_result m)
unfolding some_result
some_result-Ends m p = Ends-then m (λ a. pure (some a)) p (λ a. Stays-pure (some a))

recover_from-Ends : (audit : Bool) (state : Fields) → Ends IsAtRest (recover_from audit state)
unfolding recover_from
recover_from-Ends audit state = Ends-bind _ _ (λ _. Ends-bind _ _ (λ _. Ends-bind _ _ (λ _.
    Ends-bind _ _ (λ _. Ends-bind _ _ (λ _. Ends-bind _ _ (λ _. Ends-bind _ _ (λ _.
      Ends-holding_lock _ (
        Ends-bind _ _ (λ result. Ends-bind _ _ (λ now.
          Ends-then _ _ (Ends-atomic_json _ (recovered-rests result (text now) state))
            (λ _. Stays-bind _ _ (Stays-audit_event audit _) (λ _. Stays-pure result))))))))))))

-- A call did nothing, or has left a state file at rest.
abbrev IsDone : Bool → World → Result (Option Json) × World → Type 0
IsDone audit w r = (r ≡ (ok none, w)) ⊎ IsAtRest r.1

recover_if-IsDone :
    (b audit : Bool) (state : Fields) (w : World) (r : Option Json)
    → (recover_if b audit state w).0 ≡ ok r
    → IsDone audit w (recover_if b audit state w)
unfolding recover_if pure
recover_if-IsDone false audit state w r e = inl refl
recover_if-IsDone true audit state w r e =
    inr ((some_result-Ends (recover_from audit state) (recover_from-Ends audit state)).at w r e)

parsed-IsDone :
    (found : Result Json) (audit : Bool) (w : World) (r : Option Json)
    → ((parsed found >>= λ state. recover_if (is_interrupted (get "status" state)) audit state) w).0
      ≡ ok r
    → IsDone audit w
        ((parsed found >>= λ state. recover_if (is_interrupted (get "status" state)) audit state) w)
unfolding ◌>>=◌ raise pure
parsed-IsDone (err x) audit w r e = cc
parsed-IsDone (ok (obj state)) audit w r e =
    recover_if-IsDone (is_interrupted (get "status" state)) audit state w r e
parsed-IsDone (ok null) audit w r e = cc
parsed-IsDone (ok (bool b)) audit w r e = cc
parsed-IsDone (ok (num n)) audit w r e = cc
parsed-IsDone (ok (text t)) audit w r e = cc
parsed-IsDone (ok (arr xs)) audit w r e = cc

recover_file-IsDone :
    (there audit : Bool) (w : World) (r : Option Json)
    → (recover_file there audit w).0 ≡ ok r
    → IsDone audit w (recover_file there audit w)
unfolding recover_file load_json ◌>>=◌ gets pure
recover_file-IsDone false audit w r e = inl refl
recover_file-IsDone true audit w r e =
    parsed-IsDone (document w.host (content_of (target_of state_path w.disk))) audit w r e

recover_interrupted-IsDone :
    (audit : Bool) (w : World) (r : Option Json)
    → (recover_interrupted audit w).0 ≡ ok r
    → IsDone audit w (recover_interrupted audit w)
unfolding recover_interrupted is_file ◌>>=◌ gets
recover_interrupted-IsDone audit w r e = recover_file-IsDone _ audit w r e

recover_interrupted_rests :
    (audit : Bool) (w : World) → IsAtRest w → recover_interrupted audit w ≡ (ok none, w)
unfolding recover_interrupted recover_file recover_if ◌>>=◌ pure
recover_interrupted_rests audit w (state, (there, rest)) =
    rw
      (
        is_file_file state_path (json (obj state)) w there,
        load_json_file state_path state w there,
        rest,
      )
      refl

again :
    (audit : Bool) (w : World) (r : Result (Option Json) × World)
    → recover_interrupted audit w ≡ r
    → IsDone audit w r
    → recover_interrupted audit r.1 ≡ (ok none, r.1)
again audit w r e (inl nothing) = rw nothing (e ∙ nothing)
again audit w r e (inr rests) = recover_interrupted_rests audit r.1 rests

-- A recovery at boot that returns is final: called again on what it left, `recover_interrupted`
-- does nothing, whether it had rolled an update back or had found none to roll back.
pub recover_interrupted_twice :
    (audit : Bool) (w : World) (r : Option Json)
    → (recover_interrupted audit w).0 ≡ ok r
    → recover_interrupted audit (recover_interrupted audit w).1
      ≡ (ok none, (recover_interrupted audit w).1)
recover_interrupted_twice audit w r e =
    again audit w (recover_interrupted audit w) refl (recover_interrupted-IsDone audit w r e)
