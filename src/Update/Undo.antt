-- ===== src/Update/Undo.antt =====
-- The handler of `apply_update`: the automatic rollback, and what happens when that fails.
use xaac_thin_client_os.Base.{Bool, String, some, [], ◌∷◌, ◌++◌}
use xaac_thin_client_os.Json.{Json, Fields, text}
use xaac_thin_client_os.Machine.{
  M, Exc, runtime_error, failure, message, pure, raise, ◌>>=◌, ◌>>◌, try, fresh,
}
use xaac_thin_client_os.Update.Policy.{audit_event}
use xaac_thin_client_os.Update.Staging.{Staged}
use xaac_thin_client_os.Update.Point.{Point}
use xaac_thin_client_os.Update.Packages.{Before}
use xaac_thin_client_os.Update.Registry.{block_failed}
use xaac_thin_client_os.Update.Rollback.{rollback_from_recovery}
use xaac_thin_client_os.Update.Transaction.{Transaction, write_transaction_state}

-- The variables that the handler reads once a recovery point exists.
pub record Plan : Type 0 where
  pub policy : Fields
  pub audit : Bool
  pub staged : Staged
  pub before : Before
  pub point : Point
  pub target : Json

-- `raise` of the handler: an exception of another class is wrapped
abbrev rethrown : Exc → Exc
rethrown (runtime_error why) = runtime_error why
rethrown (failure why) = runtime_error why

unfoldable pub abort : {A : Type 0} → Bool → Exc → M A
abort audit e = do audit_event audit "transaction_aborted"; raise (rethrown e)

-- The `try` block of the handler, up to the key `rollback` of the state: the rollback, and the block
-- of the failed versions.
unfoldable pub undo : Plan → Transaction → String → M Json
undo p s reason = do
  write_transaction_state (record s { status = "rolling_back"; last_error = some reason })
  rollback ← rollback_from_recovery p.policy p.point.recovery p.before reason
  block_failed p.staged.manifest s.txid reason
  pure rollback

abbrev pub with_rollback : Transaction → Json → Transaction
with_rollback s rollback = record s { extra = s.extra ++ ("rollback", rollback) ∷ [] }

-- The rest of the block, where the key is set.
unfoldable pub undone : Plan → Transaction → String → M (Unit {0})
undone p s reason = do
  now ← fresh (λ h. h.now)
  write_transaction_state
      (record s { status = "rolled_back"; last_error = some reason; completed_at = some now })
  audit_event p.audit "transaction_rolled_back"

-- Its `except` clause.
unfoldable pub rollback_failed : Plan → Transaction → String → Exc → M (Unit {0})
rollback_failed p s reason e = do
  now ← fresh (λ h. h.now)
  write_transaction_state (record s {
    status = "rollback_failed";
    last_error = some reason;
    completed_at = some now;
    extra = s.extra ++ ("rollback_error", text (message e)) ∷ [];
  })
  audit_event p.audit "transaction_rollback_failed"
  raise (runtime_error "Actualització fallida i rollback fallit")

unfoldable pub finish_undo : Plan → Transaction → String → M (Unit {0})
unfolding undone
finish_undo p s reason = try (undone p s reason) pure (rollback_failed p s reason)

-- The handler of `apply_update` when the status is `installing` or `validating`.
unfoldable pub roll_back : {A : Type 0} → Plan → Transaction → Exc → M A
roll_back p s e = do
  try (undo p s (message e)) (λ rollback. finish_undo p (with_rollback s rollback) (message e))
      (rollback_failed p s (message e))
  raise (rethrown e)
