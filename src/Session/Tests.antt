-- ===== src/Session/Tests.antt =====
-- Runs of the supervisor, and the theorems applied to them.
use xaac_thin_client_os.Machine.Sample.{plain_host}
use xaac_thin_client_os.Base.{
  ℕ, suc, ◌≤◌, List, [], ◌∷◌, ◌≡◌, refl, length, any, arith, true, not, ◌||◌,
}
use xaac_thin_client_os.Session.Restarts.{
  Settings, Restarts, Round, give_up, started_at, counted, slowed, judge, supervise, history,
}
use xaac_thin_client_os.Session.Budget.{supervise-crash, supervise-patient}
use xaac_thin_client_os.Session.Written.{is_degraded, is_given_up, history-supervise}
use xaac_thin_client_os.Base.{pos}
use xaac_thin_client_os.Json.{Fields, num, text, arr, cons, nil, fields}
use xaac_thin_client_os.Machine.{World, Host}

abbrev settings : Settings
settings = record {
  max_restarts = 2;
  window = 60;
  reset_after = 30;
  initial_backoff = 1;
  max_backoff = 3;
  voluntary = 0 ∷ [];
}

abbrev crash_at : ℕ → Round
crash_at n = record { started = n; ended = suc n; code = 1 }

abbrev crashes : List Round
crashes = crash_at 100 ∷ crash_at 103 ∷ crash_at 107 ∷ []

abbrev begin : Restarts
begin = started_at settings 100

abbrev second : Restarts
second = slowed settings (record { attempts = 1; window_start = 100; backoff = 1 })

gives_up_test : supervise settings begin crashes ≡ give_up
unfolding supervise judge counted
gives_up_test = refl

supervise-crash_example : supervise settings begin crashes ≡ give_up
supervise-crash_example = supervise-crash settings begin crashes (omega arith) refl refl

supervise-patient_example : 3 ≤ length crashes
supervise-patient_example = supervise-patient settings begin crashes (omega arith) gives_up_test

history-supervise_example :
    any is_degraded (history true settings begin crashes)
    ≡ (not true || is_given_up (supervise settings begin crashes))
history-supervise_example = history-supervise true settings begin crashes

abbrev profile_section : Fields
profile_section = fields (
    ("user", text "xaac-kiosk")
    ∷ ("client_command", text "/c")
    ∷ ("supervisor_command", text "/s")
    ∷ ("error_screen_command", text "/e")
    ∷ ("startup_screen_command", text "/u")
    ∷ ("startup_screen_minimum_seconds", num (pos 2))
    ∷ ("startup_screen_timeout_seconds", num (pos 9))
    ∷ ("max_restarts", num (pos 2))
    ∷ ("restart_window_seconds", num (pos 60))
    ∷ ("initial_backoff_seconds", num (pos 1))
    ∷ ("maximum_backoff_seconds", num (pos 3))
    ∷ ("reset_after_seconds", num (pos 30))
    ∷ ("status_file", text "/run/status")
    ∷ ("shared_state_file", text "/var/lib/xaac/thin-client/state/state.json")
    ∷ ("event_directory", text "/run/xaac/thin-client/events")
    ∷ ("thin_client_package", text "xaac-thinclient")
    ∷ ("state_heartbeat_seconds", num (pos 30))
    ∷ ("max_events", num (pos 64))
    ∷ ("voluntary_exit_codes", arr (cons (num (pos 0)) nil))
    ∷ [])

abbrev session_host : Host
session_host = plain_host

abbrev session_machine : World
session_machine = record { host = session_host; time = 0; disk = []; trace = [] }
