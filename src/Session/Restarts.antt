-- ===== src/Session/Restarts.antt =====
-- The loop of the generated supervisor: which rounds are restarted, after which pause, and when it
-- gives up.
use xaac_thin_client_os.Base.{ℕ, suc, ◌+◌, ◌*◌, Bool, List, [], ◌∷◌, any, ltb, ◌==◌, if◌then◌else◌}

-- The settings that the profile fills in.
pub record Settings : Type 0 where
  pub max_restarts : ℕ
  pub window : ℕ
  pub reset_after : ℕ
  pub initial_backoff : ℕ
  pub max_backoff : ℕ
  pub voluntary : List ℕ

-- The variables `attempts`, `window_start` and `BACKOFF`.
pub record Restarts : Type 0 where
  pub attempts : ℕ
  pub window_start : ℕ
  pub backoff : ℕ

-- What one run of the client amounts to: `started`, `ended` and its exit code, in seconds of
-- `date +%s`, which may go back.
pub record Round : Type 0 where
  pub started : ℕ
  pub ended : ℕ
  pub code : ℕ

pub data Status : Type 0 where
  starting running stopped failed degraded : Status

-- A call of `write_status`: the status, the exit code and the attempts.
pub record Entry : Type 0 where
  pub status : Status
  pub exit_code : ℕ
  pub attempt : ℕ

abbrev entry : Status → ℕ → ℕ → Entry
entry status exit_code attempt = record {
  status = status;
  exit_code = exit_code;
  attempt = attempt;
}

abbrev pub is_voluntary : Settings → Round → Bool
is_voluntary c r = any (λ n. n == r.code) c.voluntary

abbrev pub started_anew : Round → Restarts → Restarts
started_anew r s = record s { attempts = 0; window_start = r.ended }

-- `[ "$runtime" -ge "$RESET_AFTER" ] && …`, written without the subtraction
abbrev pub after_long_run : Settings → Round → Restarts → Restarts
after_long_run c r s = if ltb r.ended (r.started + c.reset_after) then s else started_anew r s

-- `[ $((ended - window_start)) -gt "$WINDOW" ] && …`
abbrev pub after_window : Settings → Round → Restarts → Restarts
after_window c r s = if ltb (s.window_start + c.window) r.ended then started_anew r s else s

-- The two resets and `attempts=$((attempts + 1))`
unfoldable pub counted : Settings → Round → Restarts → Restarts
counted c r s =
    let t = after_window c r (after_long_run c r s) in
    record { attempts = suc t.attempts; window_start = t.window_start; backoff = t.backoff }

abbrev pub gives_up : Settings → Restarts → Bool
gives_up c t = ltb c.max_restarts t.attempts

-- `BACKOFF=$((BACKOFF * 2))`, and its limit
abbrev pub slowed : Settings → Restarts → Restarts
slowed c t = record t {
  backoff = if ltb c.max_backoff (t.backoff * 2) then c.max_backoff else t.backoff * 2;
}

-- How a round ends: with `exit 0`, with the error screen for good, or with another round.
pub data Verdict : Type 0 where
  stop give_up : Verdict
  again : Restarts → Verdict

unfoldable pub judge : Settings → Restarts → Round → Verdict
unfolding counted
judge c s r =
    if is_voluntary c r
    then stop
    else if gives_up c (counted c r s)
    then give_up
    else again (slowed c (counted c r s))

abbrev pub started_at : Settings → ℕ → Restarts
started_at c now = record { attempts = 0; window_start = now; backoff = c.initial_backoff }

-- What becomes of a verdict: the next rounds follow where there is another one.
abbrev pub after_verdict : (Restarts → Verdict) → Verdict → Verdict
after_verdict next stop = stop
after_verdict next give_up = give_up
after_verdict next (again t) = next t

-- The state of the supervisor after these rounds: it goes on, or it has ended with a verdict.
unfoldable pub supervise : Settings → Restarts → List Round → Verdict
unfolding judge
supervise c s [] = again s
supervise c s (r ∷ rs) = after_verdict (λ t. supervise c t rs) (judge c s r)

-- The statuses that these rounds write, in their order.
unfoldable pub rounds_written : Settings → Restarts → List Round → List Entry
unfolding counted
rounds_written c s [] = []
rounds_written c s (r ∷ rs) =
    let t = counted c r s in
    let rest = rounds_written c (slowed c t) rs in
    entry starting 0 s.attempts
    ∷ entry running 0 s.attempts
    ∷ (if is_voluntary c r
        then entry stopped r.code s.attempts ∷ []
        else entry failed r.code t.attempts
          ∷ (if gives_up c t then entry degraded r.code t.attempts ∷ [] else rest))

-- The statuses that the script writes: `ready` is the answer of `wait_for_graphics`.
unfoldable pub history : Bool → Settings → Restarts → List Round → List Entry
unfolding rounds_written
history ready c s rs = if ready then rounds_written c s rs else entry degraded 75 0 ∷ []
