-- ===== src/Gateway/Store/Examples.antt =====
-- The theorems about gateway/store.go at concrete stores.
use go_smsc.Prelude.{ℕ, ◌-◌, ◌<◌, ltb, ◌≡◌, ◌⊎◌, refl, arith, true, false, List, [], ◌∷◌, some}
use go_smsc.Prelude.Int.{pos}
use go_smsc.Prelude.Keys.{Key, key_eq}
use go_smsc.Gateway.Decimal.{pow10}
use go_smsc.Gateway.Store.{
  SubmitRecord, PendingSubmit, PendingDeliver, Value, submit_record, pending_submit,
  pending_deliver, MessageStore, msg_key, record_key, retry_key, padded, submit_retry_prefix,
  retry_prefix, set_all, store_submit, delete_submit, flush, receive, stop, drain_submit_retries,
  drain_retries,
}
use go_smsc.Gateway.Store.Entries.{Entries, lookup, remove}
use go_smsc.Gateway.Store.Sorted.{sorted_kv, sorted_kv-IsKv, range}
use go_smsc.Gateway.Store.Writer.{
  Action, store, delete, take_write, tick, promised_all, act, act_all, under_way, view, in_order,
  all_in_order, writes,
}
use go_smsc.Gateway.Store.Writer.View.{view-act_all, view-delete_submit, get-stop}
use go_smsc.Gateway.Store.Queues.{submits, delivers}
use go_smsc.Gateway.Store.Drain.{
  submit_queue, retry_queue, drain_submit_retries_lossless, drain_retries_lossless,
}
use go_smsc.Gateway.Store.Database.{precedes}
use go_smsc.Gateway.Store.Fifo.{Before, queued, drain_submit_retries_fifo}
use mathlib.Core.List.{Memᴰ}
use mathlib.Core.List.Memᴰ.{head, tail}

abbrev store_of : Entries Value → List (Key × Value) → MessageStore (Entries Value)
store_of db channel = record {
  db = db;
  channel = channel;
  batch = [];
  closed = false;
  msg_count = pos 0;
  retry_count = pos 0;
  submit_retry_count = pos 0;
  log_count = pos 0;
}

abbrev a_record : SubmitRecord
a_record = record {
  gw_msg_id = 71 ∷ [];
  smsc_msg_id = 83 ∷ [];
  north_conn_id = 69 ∷ [];
  orig_seq_num = 7;
  msisdn = 50 ∷ [];
  source_addr = 49 ∷ [];
  payload = 0 ∷ [];
  submitted_at = 100;
}

abbrev some_actions : List Action
some_actions = store a_record ∷ take_write ∷ tick ∷ delete (83 ∷ []) ∷ []

all_in_order_run : all_in_order sorted_kv (store_of [] []) some_actions ≡ true
unfolding all_in_order in_order act writes under_way record_key store_submit receive flush set_all
    delete_submit
all_in_order_run = refl

view-act_all_example :
    view sorted_kv (act_all sorted_kv (store_of [] []) some_actions) (msg_key (83 ∷ []))
    ≡ promised_all (view sorted_kv (store_of [] [])) some_actions (msg_key (83 ∷ []))
view-act_all_example =
    view-act_all sorted_kv sorted_kv-IsKv (store_of [] []) some_actions (msg_key (83 ∷ []))
      all_in_order_run

abbrev queued_store : MessageStore (Entries Value)
queued_store = store_of [] ((msg_key (83 ∷ []), submit_record a_record) ∷ [])

queued_writes : writes (under_way sorted_kv queued_store) (msg_key (83 ∷ [])) ≡ true
unfolding writes under_way key_eq
queued_writes = refl

view-delete_submit_example :
    view sorted_kv (delete_submit sorted_kv queued_store (83 ∷ [])) (msg_key (83 ∷ []))
    ≡ view sorted_kv queued_store (msg_key (83 ∷ []))
view-delete_submit_example =
    view-delete_submit sorted_kv sorted_kv-IsKv queued_store (83 ∷ []) (msg_key (83 ∷ []))
      queued_writes

get-stop_example :
    lookup (stop sorted_kv queued_store).db (msg_key (83 ∷ []))
    ≡ view sorted_kv queued_store (msg_key (83 ∷ []))
get-stop_example = get-stop sorted_kv sorted_kv-IsKv queued_store (msg_key (83 ∷ []))

abbrev a_submit : ℕ → PendingSubmit
a_submit time = record {
  gw_msg_id = 71 ∷ [];
  conn_id = 69 ∷ [];
  msisdn = 50 ∷ [];
  source_addr = 49 ∷ [];
  raw_body = 0 ∷ [];
  retry_count = 1;
  enqueued_at = time;
}

abbrev a_deliver : ℕ → PendingDeliver
a_deliver time = record {
  target_conn_id = 69 ∷ [];
  msisdn = 50 ∷ [];
  pdu_body = 0 ∷ [];
  esm_class = 4;
  source_addr = 49 ∷ [];
  dest_addr = 50 ∷ [];
  enqueued_at = time;
}

abbrev submit_time_key : ℕ → Key
submit_time_key time = retry_key submit_retry_prefix time (71 ∷ [])

abbrev submits_store : MessageStore (Entries Value)
submits_store =
    store_of
      ((submit_time_key 100, pending_submit (a_submit 100))
        ∷ (submit_time_key 200, pending_submit (a_submit 200))
        ∷ [])
      []

second_queued :
    Memᴰ (submit_time_key 200, a_submit 200) (submit_queue sorted_kv sorted_kv-IsKv submits_store)
unfolding submits range remove precedes padded retry_key key_eq
second_queued = tail (head refl)

drain_submit_retries_lossless_example :
    Memᴰ (a_submit 200) (drain_submit_retries sorted_kv submits_store (pos 1)).1
    ⊎ lookup (drain_submit_retries sorted_kv submits_store (pos 1)).0.db (submit_time_key 200)
      ≡ some (pending_submit (a_submit 200))
drain_submit_retries_lossless_example =
    drain_submit_retries_lossless sorted_kv sorted_kv-IsKv submits_store (pos 1)
      (submit_time_key 200) (a_submit 200) second_queued

abbrev delivers_store : MessageStore (Entries Value)
delivers_store =
    store_of ((retry_key retry_prefix 100 (71 ∷ []), pending_deliver (a_deliver 100)) ∷ []) []

one_delivery :
    Memᴰ
      (retry_key retry_prefix 100 (71 ∷ []), a_deliver 100)
      (retry_queue sorted_kv sorted_kv-IsKv delivers_store 500)
unfolding delivers range remove precedes padded retry_key
one_delivery = head refl

drain_retries_lossless_example :
    Memᴰ (a_deliver 100) (drain_retries sorted_kv delivers_store 500 60 (pos 200)).1
    ⊎ (ltb 100 (500 - 60) ≡ true
        ⊎ lookup
            (drain_retries sorted_kv delivers_store 500 60 (pos 200)).0.db
            (retry_key retry_prefix 100 (71 ∷ []))
          ≡ some (pending_deliver (a_deliver 100)))
drain_retries_lossless_example =
    drain_retries_lossless sorted_kv sorted_kv-IsKv delivers_store 500 60 (pos 200)
      (retry_key retry_prefix 100 (71 ∷ [])) (a_deliver 100) one_delivery

below_pow10 : 200 < pow10 20
unfolding pow10
below_pow10 = omega arith

drain_submit_retries_fifo_example :
    Before
      (a_submit 100)
      (a_submit 200)
      (drain_submit_retries sorted_kv
        (queued sorted_kv sorted_kv-IsKv (store_of [] []) (a_submit 100) (a_submit 200))
        (pos 100)).1
    ⊎ lookup
        (drain_submit_retries sorted_kv
          (queued sorted_kv sorted_kv-IsKv (store_of [] []) (a_submit 100) (a_submit 200))
          (pos 100)).0.db
        (submit_time_key 200)
      ≡ some (pending_submit (a_submit 200))
drain_submit_retries_fifo_example =
    drain_submit_retries_fifo sorted_kv sorted_kv-IsKv (store_of [] []) (a_submit 100)
      (a_submit 200) (pos 100) (omega arith) below_pow10
