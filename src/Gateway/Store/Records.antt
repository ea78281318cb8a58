-- ===== src/Gateway/Store/Records.antt =====
-- What gateway/store.go and gateway/callback.go keep of a message beside its submit record. A zero time
-- is 0; the cost of a log entry, which nothing here sets, is left out.
use go_smsc.Prelude.{ℕ}
use go_smsc.Prelude.Keys.{Key}

-- Stored under "status:<gw_msg_id>".
pub record MessageStatus : Type 0 where
  pub gw_msg_id : Key
  pub to : Key
  pub from : Key
  pub reference : Key
  pub status : Key
  pub dlr_status : Key
  pub smsc_msg_id : Key
  pub updated_at : ℕ

-- Stored under "log:<created_at>:<gw_msg_id>".
pub record MessageLogEntry : Type 0 where
  pub gw_msg_id : Key
  pub smsc_msg_id : Key
  pub conn_id : Key
  pub source_addr : Key
  pub dest_addr : Key
  pub status : Key
  pub dlr_status : Key
  pub created_at : ℕ
  pub updated_at : ℕ

-- Stored under "callback:<gw_msg_id>".
pub record CallbackRecord : Type 0 where
  pub gw_msg_id : Key
  pub callback_url : Key
  pub reference : Key
  pub retries : ℕ
  pub next_attempt : ℕ

-- `log_key` is the value of "logidx:<gw_msg_id>", the key of the log entry.
pub data Tracking : Type 0 where
  message_status : MessageStatus → Tracking
  log_entry : MessageLogEntry → Tracking
  log_key : Key → Tracking
  callback : CallbackRecord → Tracking
