-- ===== src/Gateway/Store/Status.antt =====
-- Message statuses and the message log of gateway/store.go. `format` is time's RFC3339Nano layout, a
-- parameter; `now` is the time of the call.
use go_smsc.Prelude.{ℕ, [], ◌∷◌, ◌++◌, Option, none, some, ◌==◌, if◌then◌else◌}
use go_smsc.Prelude.Int.{pos, ◌+ℤ◌}
use go_smsc.Prelude.Keys.{Key}
use go_smsc.Gateway.Store.{
  Value, submit_record, pending_submit, pending_deliver, tracking, MessageStore,
}
use go_smsc.Gateway.Store.Database.{Kv}
use go_smsc.Gateway.Store.Records.{
  Tracking, MessageStatus, MessageLogEntry, CallbackRecord, message_status, log_entry, log_key,
  callback,
}

-- "status:", "log:", "logidx:" and "callback:"
abbrev pub status_prefix : Key
status_prefix = 115 ∷ 116 ∷ 97 ∷ 116 ∷ 117 ∷ 115 ∷ 58 ∷ []

abbrev pub log_prefix : Key
log_prefix = 108 ∷ 111 ∷ 103 ∷ 58 ∷ []

abbrev pub log_index_prefix : Key
log_index_prefix = 108 ∷ 111 ∷ 103 ∷ 105 ∷ 100 ∷ 120 ∷ 58 ∷ []

abbrev pub callback_prefix : Key
callback_prefix = 99 ∷ 97 ∷ 108 ∷ 108 ∷ 98 ∷ 97 ∷ 99 ∷ 107 ∷ 58 ∷ []

unfoldable pub as_tracking : Option Value → Option Tracking
as_tracking none = none
as_tracking (some (submit_record r)) = none
as_tracking (some (pending_submit p)) = none
as_tracking (some (pending_deliver p)) = none
as_tracking (some (tracking t)) = some t

unfoldable pub as_status : Option Tracking → Option MessageStatus
as_status none = none
as_status (some (message_status st)) = some st
as_status (some (log_entry e)) = none
as_status (some (log_key k)) = none
as_status (some (callback c)) = none

unfoldable pub as_log_entry : Option Tracking → Option MessageLogEntry
as_log_entry none = none
as_log_entry (some (message_status st)) = none
as_log_entry (some (log_entry e)) = some e
as_log_entry (some (log_key k)) = none
as_log_entry (some (callback c)) = none

unfoldable pub as_log_key : Option Tracking → Option Key
as_log_key none = none
as_log_key (some (message_status st)) = none
as_log_key (some (log_entry e)) = none
as_log_key (some (log_key k)) = some k
as_log_key (some (callback c)) = none

unfoldable pub as_callback : Option Tracking → Option CallbackRecord
as_callback none = none
as_callback (some (message_status st)) = none
as_callback (some (log_entry e)) = none
as_callback (some (log_key k)) = none
as_callback (some (callback c)) = some c

module _ {Db : Type 0} (kv : Kv Db Value) where
  -- SetJSON and DeleteKey
  unfoldable pub set_tracking : MessageStore Db → Key → Tracking → MessageStore Db
  set_tracking s key t = record s { db = kv.set s.db key (tracking t) }

  unfoldable pub delete_key : MessageStore Db → Key → MessageStore Db
  delete_key s key = record s { db = kv.delete s.db key }

  unfoldable pub set_message_status : MessageStore Db → MessageStatus → MessageStore Db
  unfolding set_tracking
  set_message_status s st = set_tracking s (status_prefix ++ st.gw_msg_id) (message_status st)

  unfoldable pub get_message_status : MessageStore Db → Key → Option MessageStatus
  unfolding as_status as_tracking
  get_message_status s id = as_status (as_tracking (kv.get s.db (status_prefix ++ id)))

  module _ (format : ℕ → Key) (now : ℕ) where
    unfoldable pub log_message : MessageStore Db → MessageLogEntry → MessageStore Db
    log_message s entry =
        let created = if entry.created_at == 0 then now else entry.created_at in
        let key = log_prefix ++ (format created ++ 58 ∷ entry.gw_msg_id) in
        let logged = record entry { created_at = created; updated_at = now } in
        record s {
          db =
              kv.set (kv.set s.db key (tracking (log_entry logged)))
                (log_index_prefix ++ entry.gw_msg_id) (tracking (log_key key));
          log_count = s.log_count +ℤ pos 1;
        }

    -- The entry is found by the index, changed and set under its key.
    unfoldable pub update_message_log :
        MessageStore Db → Key → (MessageLogEntry → MessageLogEntry) → MessageStore Db
    unfolding as_log_key as_log_entry as_tracking
    update_message_log s gw_msg_id updater =
        elim (as_log_key (as_tracking (kv.get s.db (log_index_prefix ++ gw_msg_id)))) [
          | none ↦ s
          | some key ↦ elim (as_log_entry (as_tracking (kv.get s.db key))) [
            | none ↦ s
            | some entry ↦
                let updated = record (updater entry) { updated_at = now } in
                record s { db = kv.set s.db key (tracking (log_entry updated)) }
          ]
        ]
