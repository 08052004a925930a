-- ===== src/Update/Policy.antt =====
-- The policy of the updater, the paths that it works on, its lock and its audit callback.
use xaac_thin_client_os.Base.{Bool, true, false, ℤ, pos, String, ◌||◌, not, ◌∷◌}
use xaac_thin_client_os.Json.{Json, Fields, bool, num, text, lookup, get, as_obj, as_text, json_eq}
use xaac_thin_client_os.Machine.{
  ok, locked, unlocked, audited, M, runtime_error, failure, pure, raise, gets, or_raise, ◌>>=◌,
  ◌>>◌, raise_if, when, try, effect, load_json,
}

abbrev pub policy_path : String
policy_path = "/etc/xaac/update/transactional-installation.json"

abbrev pub state_path : String
state_path = "/var/lib/xaac-update/transaction-state.json"

abbrev pub rollback_state_path : String
rollback_state_path = "/var/lib/xaac-update/rollback-state.json"

abbrev pub blocked_path : String
blocked_path = "/var/lib/xaac-update/blocked-versions.json"

abbrev pub current_release_path : String
current_release_path = "/usr/share/xaac/update/current-release.json"

unfoldable pub load_policy : M Fields
load_policy = do
  policy ← load_json policy_path
  raise_if
      (not (json_eq (get "schema_version" policy) (num (pos 2)))
        || not (json_eq (get "transaction_id" policy) (text "xaac-transactional-update")))
      (runtime_error "Política transaccional no compatible")
  pure policy

-- `policy[k1][k2]`: a missing key or a section that is no dict raises
unfoldable pub setting : Fields → String → String → M Json
setting policy k1 k2 = do
  part ← or_raise (lookup k1 policy) (failure "KeyError")
  entries ← or_raise (as_obj part) (failure "TypeError")
  or_raise (lookup k2 entries) (failure "KeyError")

-- `Path(policy[k1][k2])`
unfoldable pub path_setting : Fields → String → String → M String
path_setting policy k1 k2 = do
  value ← setting policy k1 k2
  or_raise (as_text value) (failure "TypeError")

abbrev bool_int : Bool → ℤ
bool_int true = pos 1
bool_int false = pos 0

unfoldable pub to_int : Json → M ℤ
to_int (num n) = pure n
to_int (bool b) = pure (bool_int b)
to_int (text s) = do value ← gets (λ w. w.host.int_of s); or_raise value (failure "ValueError")
to_int _ = raise (failure "TypeError")

-- `int(policy[k1][k2])`
unfoldable pub int_setting : Fields → String → String → M ℤ
unfolding to_int
int_setting policy k1 k2 = do value ← setting policy k1 k2; to_int value

-- `_lock` and `handle.close()`
unfoldable pub acquire : M (Unit {0})
acquire =
    try (effect locked (λ d. d)) pure
      (λ e. raise (runtime_error "Ja hi ha una actualització o rollback en curs"))

unfoldable pub release : M (Unit {0})
release w = (ok tt, record w { trace = unlocked ∷ w.trace })

-- `if audit: audit(event, detail)`: the callback writes a log, and may raise
unfoldable pub audit_event : Bool → String → M (Unit {0})
audit_event present name = when present (effect (audited name) (λ d. d))

-- `try: m` with `finally: handle.close()`
unfoldable pub holding_lock : {A : Type 0} → M A → M A
unfolding release
holding_lock m = try m (λ a. do release; pure a) (λ e. do release; raise e)
