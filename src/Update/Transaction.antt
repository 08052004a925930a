-- ===== src/Update/Transaction.antt =====
-- The dict `state` of `apply_update`, and the file that it is written to.
use xaac_thin_client_os.Base.{pos, String, Option, List, ◌∷◌}
use xaac_thin_client_os.Json.{Json, num, text, obj, fields, texts, optional_text}
use xaac_thin_client_os.Machine.{M, atomic_json}
use xaac_thin_client_os.Update.Policy.{state_path}

-- The dict `state`. `extra` holds the keys that only some branches set.
pub record Transaction : Type 0 where
  pub status : String
  pub txid : String
  pub started_at : String
  pub completed_at : Option String
  pub recovery_point : Option String
  pub target_os : Json
  pub changed : List String
  pub restarted : List String
  pub checks : List (String × Json)
  pub last_error : Option String
  pub extra : List (String × Json)

abbrev pub transaction_json : Transaction → Json
transaction_json s = obj (
    fields (
      ("schema_version", num (pos 2))
      ∷ ("status", text s.status)
      ∷ ("transaction_id", text s.txid)
      ∷ ("started_at", text s.started_at)
      ∷ ("completed_at", optional_text s.completed_at)
      ∷ ("recovery_point", optional_text s.recovery_point)
      ∷ ("target_os_version", s.target_os)
      ∷ ("changed_packages", texts s.changed)
      ∷ ("restarted", texts s.restarted)
      ∷ ("checks", obj (fields s.checks))
      ∷ ("last_error", optional_text s.last_error)
      ∷ s.extra))

-- `_write_transaction_state`
unfoldable pub write_transaction_state : Transaction → M (Unit {0})
write_transaction_state s = atomic_json state_path (transaction_json s)
