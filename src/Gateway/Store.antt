-- ===== src/Gateway/Store.antt =====
-- MessageStore of gateway/store.go over a key-value database. Pebble is a parameter, the record Kv with
-- the laws that its documentation gives. A value is a record, where the source has its JSON. Times are
-- nanoseconds.
pub mod Database
pub mod Records
pub mod Status
pub mod Writer
pub mod Queues
pub mod Drain
pub mod Order
pub mod Fifo
pub mod Entries
pub mod Sorted
pub mod Examples
use go_smsc.Prelude.{
  ℕ, zero, suc, ◌+◌, ◌-◌, ◌*◌, ◌/◌, ◌%◌, Bool, true, false, not, ◌&&◌, ◌||◌, List, [], ◌∷◌, ◌++◌,
  Option, none, some, leb, ltb, ◌==◌, if◌then◌else◌, length, take, map,
}
use go_smsc.Prelude.Int.{ℤ, pos, negsuc, ◌+ℤ◌, sub_ℕ}
use go_smsc.Prelude.Keys.{Key}
use go_smsc.Gateway.Store.Database.{Kv}
use go_smsc.Gateway.Store.Records.{Tracking}

pub record SubmitRecord : Type 0 where
  pub gw_msg_id : Key
  pub smsc_msg_id : Key
  pub north_conn_id : Key
  pub orig_seq_num : ℕ
  pub msisdn : Key
  pub source_addr : Key
  pub payload : List ℕ
  pub submitted_at : ℕ

pub record PendingSubmit : Type 0 where
  pub gw_msg_id : Key
  pub conn_id : Key
  pub msisdn : Key
  pub source_addr : Key
  pub raw_body : List ℕ
  pub retry_count : ℕ
  pub enqueued_at : ℕ

pub record PendingDeliver : Type 0 where
  pub target_conn_id : Key
  pub msisdn : Key
  pub pdu_body : List ℕ
  pub esm_class : ℕ
  pub source_addr : Key
  pub dest_addr : Key
  pub enqueued_at : ℕ

pub data Value : Type 0 where
  submit_record : SubmitRecord → Value
  pending_submit : PendingSubmit → Value
  pending_deliver : PendingDeliver → Value
  tracking : Tracking → Value

-- `channel` is writeCh and `batch` what the writer has taken from it and not yet committed.
pub record MessageStore (Db : Type 0) : Type 0 where
  pub db : Db
  pub channel : List (Key × Value)
  pub batch : List (Key × Value)
  pub closed : Bool
  pub msg_count : ℤ
  pub retry_count : ℤ
  pub submit_retry_count : ℤ
  pub log_count : ℤ

abbrev pub channel_size : ℕ
channel_size = 4096

abbrev pub max_batch : ℕ
max_batch = 500

-- "msg:", "gw:", "retry:" and "submit-retry:"
abbrev pub msg_prefix : Key
msg_prefix = 109 ∷ 115 ∷ 103 ∷ 58 ∷ []

abbrev pub gw_prefix : Key
gw_prefix = 103 ∷ 119 ∷ 58 ∷ []

abbrev pub retry_prefix : Key
retry_prefix = 114 ∷ 101 ∷ 116 ∷ 114 ∷ 121 ∷ 58 ∷ []

abbrev pub submit_retry_prefix : Key
submit_retry_prefix = 115 ∷ 117 ∷ 98 ∷ 109 ∷ 105 ∷ 116 ∷ 45 ∷ 114 ∷ 101 ∷ 116 ∷ 114 ∷ 121 ∷ 58 ∷ []

abbrev pub msg_key : Key → Key
msg_key id = msg_prefix ++ id

abbrev pub gw_key : Key → Key
gw_key id = gw_prefix ++ id

-- `%0<width>d`, for a number that has no more digits.
unfoldable pub padded : ℕ → ℕ → Key
padded zero n = []
padded (suc width) n = padded width (n / 10) ++ (48 + n % 10) ∷ []

-- "retry:%020d:%s" and "submit-retry:%020d:%s"
unfoldable pub retry_key : Key → ℕ → Key → Key
unfolding padded
retry_key prefix time id = prefix ++ (padded 20 time ++ 58 ∷ id)

unfoldable pub record_key : SubmitRecord → Key
record_key record' =
    if length record'.smsc_msg_id == 0
    then gw_key record'.gw_msg_id
    else msg_key record'.smsc_msg_id

-- `limit > 0 && deleted >= limit`
unfoldable pub at_limit : ℤ → ℕ → Bool
at_limit (pos n) deleted = ltb 0 n && leb n deleted
at_limit (negsuc n) deleted = false

-- The iterator's loop: `deleted` counts the keys in the batch, and an entry that does not decode is
-- passed over; so is here a record of another kind, which the keys of the range never hold. Keys to delete, and entries.
unfoldable pub submit_retries : ℤ → ℕ → List (Key × Value) → List Key × List PendingSubmit
unfolding at_limit
submit_retries limit deleted [] = ([], [])
submit_retries limit deleted ((k, submit_record r) ∷ es) = submit_retries limit deleted es
submit_retries limit deleted ((k, pending_deliver p) ∷ es) = submit_retries limit deleted es
submit_retries limit deleted ((k, tracking t) ∷ es) = submit_retries limit deleted es
submit_retries limit deleted ((k, pending_submit p) ∷ es) =
    let (keys, found) = submit_retries limit (deleted + 1) es in
    if at_limit limit deleted then ([], []) else (k ∷ keys, p ∷ found)

-- The same for the retries of deliveries: an entry from before `stale` is deleted and not returned.
unfoldable pub retries : ℕ → ℤ → ℕ → List (Key × Value) → List Key × List PendingDeliver
unfolding at_limit
retries stale limit deleted [] = ([], [])
retries stale limit deleted ((k, submit_record r) ∷ es) = retries stale limit deleted es
retries stale limit deleted ((k, pending_submit p) ∷ es) = retries stale limit deleted es
retries stale limit deleted ((k, tracking t) ∷ es) = retries stale limit deleted es
retries stale limit deleted ((k, pending_deliver p) ∷ es) =
    let (keys, found) = retries stale limit (deleted + 1) es in
    if at_limit limit deleted
    then ([], [])
    else (k ∷ keys, if ltb p.enqueued_at stale then found else p ∷ found)

module _ {Db : Type 0} (kv : Kv Db Value) where
  unfoldable pub set_all : Db → List (Key × Value) → Db
  set_all db [] = db
  set_all db ((k, v) ∷ ops) = set_all (kv.set db k v) ops

  -- The write goes to the channel while there is room and the store is open.
  unfoldable pub store_submit : MessageStore Db → SubmitRecord → MessageStore Db
  unfolding record_key
  store_submit s r =
      let key = record_key r in
      let direct = record s {
        db = kv.set s.db key (submit_record r);
        msg_count = s.msg_count +ℤ pos 1;
      } in
      let queued = record s {
        channel = s.channel ++ (key, submit_record r) ∷ [];
        msg_count = s.msg_count +ℤ pos 1;
      } in
      if s.closed then direct else if ltb (length s.channel) channel_size then queued else direct

  -- `none` also for a value that is no submit record, where the source reports an error.
  unfoldable pub read_submit : Db → Key → Option SubmitRecord
  read_submit db key = elim (kv.get db key) [
    | none ↦ none
    | some (submit_record r) ↦ some r
    | some (pending_submit p) ↦ none
    | some (pending_deliver p) ↦ none
    | some (tracking t) ↦ none
  ]

  unfoldable pub get_submit : MessageStore Db → Key → Option SubmitRecord
  unfolding read_submit
  get_submit s id = read_submit s.db (msg_key id)

  unfoldable pub get_submit_by_gw_id : MessageStore Db → Key → Option SubmitRecord
  unfolding read_submit
  get_submit_by_gw_id s id = read_submit s.db (gw_key id)

  unfoldable pub delete_submit : MessageStore Db → Key → MessageStore Db
  delete_submit s id = record s {
    db = kv.delete s.db (msg_key id);
    msg_count = s.msg_count +ℤ negsuc 0;
  }

  unfoldable pub delete_submit_by_gw_id : MessageStore Db → Key → MessageStore Db
  delete_submit_by_gw_id s id = record s {
    db = kv.delete s.db (gw_key id);
    msg_count = s.msg_count +ℤ negsuc 0;
  }

  -- The `flush` of batchWriteLoop, and what it does with an operation from the channel.
  unfoldable pub flush : MessageStore Db → MessageStore Db
  unfolding set_all
  flush s = record s { db = set_all s.db s.batch; batch = [] }

  unfoldable pub receive : MessageStore Db → MessageStore Db
  unfolding flush
  receive s = elim s.channel [
    | [] ↦ s
    | op ∷ ops ↦
        let taken = record s { channel = ops; batch = s.batch ++ op ∷ [] } in
        if leb max_batch (length s.batch + 1) then flush taken else taken
  ]

  -- Close, with the branch of batchWriteLoop for stopCh, until the database is closed, as one step: no
  -- StoreSubmit is under way that has found the store open.
  unfoldable pub stop : MessageStore Db → MessageStore Db
  unfolding flush
  stop s = flush (record s { closed = true; channel = []; batch = s.batch ++ s.channel })

  unfoldable pub enqueue_retry : MessageStore Db → Key → PendingDeliver → MessageStore Db
  unfolding retry_key
  enqueue_retry s id p = record s {
    db = kv.set s.db (retry_key retry_prefix p.enqueued_at id) (pending_deliver p);
    retry_count = s.retry_count +ℤ pos 1;
  }

  unfoldable pub enqueue_submit_retry : MessageStore Db → PendingSubmit → MessageStore Db
  unfolding retry_key
  enqueue_submit_retry s p = record s {
    db = kv.set s.db (retry_key submit_retry_prefix p.enqueued_at p.gw_msg_id) (pending_submit p);
    submit_retry_count = s.submit_retry_count +ℤ pos 1;
  }

  unfoldable pub delete_all : Db → List Key → Db
  delete_all db [] = db
  delete_all db (k ∷ ks) = delete_all (kv.delete db k) ks

  -- `\xff` ends the range; the ends of the range do not depend on the time here.
  unfoldable pub drain_submit_retries : MessageStore Db → ℤ → MessageStore Db × List PendingSubmit
  unfolding submit_retries delete_all
  drain_submit_retries s limit =
      let (keys, found) =
        submit_retries limit 0
          (kv.scan s.db submit_retry_prefix (submit_retry_prefix ++ 255 ∷ [])) in
      (
        record s {
          db = delete_all s.db keys;
          submit_retry_count = s.submit_retry_count +ℤ sub_ℕ 0 (length keys);
        },
        found,
      )

  -- The range ends before the keys of this moment. `stale` is `now - maxAge`.
  unfoldable pub drain_retries : MessageStore Db → ℕ → ℕ → ℤ → MessageStore Db × List PendingDeliver
  unfolding retries delete_all padded
  drain_retries s now max_age limit =
      let (keys, found) =
        retries (now - max_age) limit 0
          (kv.scan s.db retry_prefix (retry_prefix ++ (padded 20 now ++ 58 ∷ []))) in
      (
        record s {
          db = delete_all s.db keys;
          retry_count = s.retry_count +ℤ sub_ℕ 0 (length keys);
        },
        found,
      )
