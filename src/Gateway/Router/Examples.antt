-- ===== src/Gateway/Router/Examples.antt =====
-- The theorems about gateway/router.go at a concrete router: one engine "E" that is connected, an SMSC
-- that gives the message id "S", and a store.
use go_smsc.Prelude.{
  ℕ, ◌+◌, ◌≡◌, ◌⊎◌, refl, arith, Bool, true, false, List, [], ◌∷◌, ◌++◌, none, some,
}
use go_smsc.Prelude.Int.{pos}
use go_smsc.Prelude.Keys.{Key, key_eq}
use go_smsc.Smpp.Receipts.{DlrReceipt, parse_dlr_receipt, translate_dlr_message_id}
use go_smsc.Gateway.Bodies.{build_deliver_sm_body}
use go_smsc.Gateway.ShardMap.{new_shard_map}
use go_smsc.Gateway.Store.{
  Value, MessageStore, PendingSubmit, PendingDeliver, enqueue_retry, drain_retries,
}
use go_smsc.Gateway.Store.Entries.{Entries}
use go_smsc.Gateway.Store.Sorted.{sorted_kv}
use go_smsc.Gateway.Router.{
  Router, World, Settings, Answer, failed, accepted, Event, deliver_sm, submit_sm_resp, in_flight,
  rest_api, map_store,
}
use go_smsc.Gateway.Router.Delivery.{deliver_with_grace, redeliver, retry_delivers}
use go_smsc.Gateway.Router.Delivery.Targets.{Adds, deliver_with_grace-dlr, retry_delivers-Adds}
use go_smsc.Gateway.Router.Delivery.Outcomes.{
  Acknowledged, Queued, deliver_with_grace_lossless, redeliver_lossless,
}
use go_smsc.Gateway.Router.Forwarding.{try_submit, find_submitter, resubmit}
use go_smsc.Gateway.Router.Forwarding.Outcomes.{
  Correlated, Requeued, Failed, tried, resubmit_lossless,
}
use go_smsc.Gateway.Router.Inbound.{handle_dlr}
use go_smsc.Gateway.Router.Inbound.Reports.{OnlyCallbacks}
use go_smsc.Gateway.Router.Inbound.RoundTrip.{accepted_of, id_of, handle_dlr-accept_submit}
use go_smsc.Gateway.Router.Submit.{forward_next}
use go_smsc.Gateway.Router.Submit.Rest.{
  submitted_of, first_attempt, Traced, http_submit-forward_next,
}

abbrev a_hash : Key → ℕ
a_hash key = 0

abbrev a_format : ℕ → Key
a_format time = 84 ∷ []

abbrev a_store : MessageStore (Entries Value)
a_store = record {
  db = [];
  channel = [];
  batch = [];
  closed = false;
  msg_count = pos 0;
  retry_count = pos 0;
  submit_retry_count = pos 0;
  log_count = pos 0;
}

-- The argument is the answer of the SMSC; only the engine "E" is connected, and acknowledges.
abbrev a_world : Answer → World Bool
a_world answer = record {
  now = λ clock. 1000 + clock;
  delivers_to = λ clock conn_id body. key_eq conn_id (69 ∷ []);
  connected = λ clock conn_id. key_eq conn_id (69 ∷ []);
  disconnected_at = λ clock conn_id. none;
  round_robin_conn_id = λ clock. 69 ∷ [];
  routed = λ clock dest_addr. none;
  southbound = some true;
  submits = λ clock sub body. answer;
  takes_callback = λ clock url. true;
}

abbrev settings : Settings
settings = record {
  reconnect_grace = 60;
  max_submit_retries = pos 3;
  retry_drain_limit = pos 200;
  submit_retry_drain_limit = pos 100;
  forward_queue_size = 10000;
  mo_routes = [];
}

abbrev a_router : Router (Entries Value)
a_router = record {
  store = some a_store;
  smsc_correlation = new_shard_map;
  gw_correlation = new_shard_map;
  msisdn_affinity = new_shard_map;
  forward_ch = [];
  msg_seq = 0;
  clock = 0;
  events = [];
}

abbrev a_deliver : PendingDeliver
a_deliver = record {
  target_conn_id = 70 ∷ [];
  msisdn = 50 ∷ [];
  pdu_body = 0 ∷ [];
  esm_class = 4;
  source_addr = 49 ∷ [];
  dest_addr = 50 ∷ [];
  enqueued_at = 100;
}

abbrev a_submit : PendingSubmit
a_submit = record {
  gw_msg_id = 71 ∷ [];
  conn_id = 69 ∷ [];
  msisdn = 50 ∷ [];
  source_addr = 49 ∷ [];
  raw_body = 0 ∷ [];
  retry_count = 1;
  enqueued_at = 100;
}

-- "id:S stat:DELIVRD"
abbrev a_payload : List ℕ
a_payload =
    105 ∷ 100 ∷ 58 ∷ 83 ∷ 32 ∷ 115 ∷ 116 ∷ 97 ∷ 116 ∷ 58 ∷ 68 ∷ 69 ∷ 76 ∷ 73 ∷ 86 ∷ 82 ∷ 68 ∷ []

abbrev a_receipt : DlrReceipt
a_receipt = record {
  message_id = 83 ∷ [];
  status = 68 ∷ 69 ∷ 76 ∷ 73 ∷ 86 ∷ 82 ∷ 68 ∷ [];
  error_code = [];
}

payload_parsed : parse_dlr_receipt a_payload ≡ some a_receipt
unfolding parse_dlr_receipt
payload_parsed = refl

taken :
    (try_submit sorted_kv
      (a_world (accepted (83 ∷ [])))
      a_hash
      a_format
      settings
      (record (accepted_of sorted_kv
        (a_world (accepted (83 ∷ [])))
        a_hash
        a_format
        settings
        a_router
        (69 ∷ [])
        7
        (49 ∷ [])
        (50 ∷ [])
        (0 ∷ [])) { forward_ch = [] })
      (50 ∷ [])
      (0 ∷ [])).1
    ≡ some (83 ∷ [])
unfolding try_submit find_submitter
taken = refl

not_rest : key_eq (69 ∷ []) rest_api ≡ false
unfolding key_eq
not_rest = refl

abbrev good : World Bool
good = a_world (accepted (83 ∷ []))

abbrev bad : World Bool
bad = a_world failed

abbrev after_submit : Router (Entries Value)
after_submit =
    accepted_of sorted_kv good a_hash a_format settings a_router (69 ∷ []) 7 (49 ∷ []) (50 ∷ [])
      (0 ∷ [])

abbrev after_forward : Router (Entries Value)
after_forward = forward_next sorted_kv good a_hash a_format settings after_submit

abbrev first_id : Key
first_id = id_of sorted_kv good a_hash a_format settings a_router

handle_dlr-accept_submit_example :
    (after_submit.events ≡ in_flight (69 ∷ []) (pos 1) ∷ submit_sm_resp (69 ∷ []) 7 first_id ∷ [])
    × ((acked : Bool) × (calls : List Event) × OnlyCallbacks calls
        × ((handle_dlr sorted_kv good a_hash a_format settings after_forward
              (50 ∷ [])
              (49 ∷ [])
              4
              a_payload).events
            ≡ calls
              ++ deliver_sm
                  (69 ∷ [])
                  (build_deliver_sm_body
                    (50 ∷ [])
                    (49 ∷ [])
                    4
                    (translate_dlr_message_id a_payload (83 ∷ []) first_id))
                  acked
                ∷ after_forward.events))
handle_dlr-accept_submit_example =
    handle_dlr-accept_submit sorted_kv good a_hash a_format settings a_router (69 ∷ []) 7 (49 ∷ [])
      (50 ∷ []) (0 ∷ []) (50 ∷ []) (49 ∷ []) 4 a_payload a_receipt not_rest refl (ground arith)
      taken payload_parsed

deliver_with_grace-dlr_example :
    ((deliver_with_grace sorted_kv good settings a_router
        (70 ∷ [])
        (0 ∷ [])
        (50 ∷ [])
        4
        (49 ∷ [])
        (50 ∷ [])
        (71 ∷ [])
        true).1
      ≡ false)
    × ((deliver_with_grace sorted_kv good settings a_router
          (70 ∷ [])
          (0 ∷ [])
          (50 ∷ [])
          4
          (49 ∷ [])
          (50 ∷ [])
          (71 ∷ [])
          true).0.events
        ≡ deliver_sm (70 ∷ []) (0 ∷ []) false ∷ [])
    × ((deliver_with_grace sorted_kv good settings a_router
          (70 ∷ [])
          (0 ∷ [])
          (50 ∷ [])
          4
          (49 ∷ [])
          (50 ∷ [])
          (71 ∷ [])
          true).0.store
        ≡ map_store
            (λ s. enqueue_retry sorted_kv s (71 ∷ []) (record {
              target_conn_id = 70 ∷ [];
              msisdn = 50 ∷ [];
              pdu_body = 0 ∷ [];
              esm_class = 4;
              source_addr = 49 ∷ [];
              dest_addr = 50 ∷ [];
              enqueued_at = 1002;
            }))
            (some a_store))
unfolding key_eq
deliver_with_grace-dlr_example =
    deliver_with_grace-dlr sorted_kv good settings a_router (70 ∷ []) (0 ∷ []) (50 ∷ []) 4 (49 ∷ [])
      (50 ∷ []) (71 ∷ [])

retry_delivers-Adds_example :
    Adds
      (drain_retries sorted_kv a_store 1000 3600 (pos 200)).1
      []
      (retry_delivers sorted_kv good settings a_router 3600).events
retry_delivers-Adds_example = retry_delivers-Adds sorted_kv good settings a_router a_store 3600 refl

deliver_with_grace_lossless_example :
    (((deliver_with_grace sorted_kv good settings a_router
          (70 ∷ [])
          (0 ∷ [])
          (50 ∷ [])
          0
          (49 ∷ [])
          (50 ∷ [])
          (71 ∷ [])
          false).1
        ≡ true)
      × Acknowledged sorted_kv good settings a_router
          (0 ∷ [])
          (deliver_with_grace sorted_kv good settings a_router
            (70 ∷ [])
            (0 ∷ [])
            (50 ∷ [])
            0
            (49 ∷ [])
            (50 ∷ [])
            (71 ∷ [])
            false).0)
    ⊎ (((deliver_with_grace sorted_kv good settings a_router
            (70 ∷ [])
            (0 ∷ [])
            (50 ∷ [])
            0
            (49 ∷ [])
            (50 ∷ [])
            (71 ∷ [])
            false).1
          ≡ false)
        × ((time : ℕ) × Queued sorted_kv good settings a_router
              (record {
                target_conn_id = 70 ∷ [];
                msisdn = 50 ∷ [];
                pdu_body = 0 ∷ [];
                esm_class = 0;
                source_addr = 49 ∷ [];
                dest_addr = 50 ∷ [];
                enqueued_at = time;
              })
              (deliver_with_grace sorted_kv good settings a_router
                (70 ∷ [])
                (0 ∷ [])
                (50 ∷ [])
                0
                (49 ∷ [])
                (50 ∷ [])
                (71 ∷ [])
                false).0))
deliver_with_grace_lossless_example =
    deliver_with_grace_lossless sorted_kv good settings a_router (70 ∷ []) (0 ∷ []) (50 ∷ []) 0
      (49 ∷ []) (50 ∷ []) (71 ∷ []) false

redeliver_lossless_example :
    Acknowledged sorted_kv good settings a_router
      (0 ∷ [])
      (redeliver sorted_kv good settings a_router a_deliver)
    ⊎ Queued sorted_kv good settings a_router a_deliver
        (redeliver sorted_kv good settings a_router a_deliver)
redeliver_lossless_example = redeliver_lossless sorted_kv good settings a_router a_deliver

resubmit_lossless_example :
    Correlated sorted_kv bad a_hash a_format settings a_router a_submit
      (resubmit sorted_kv bad a_hash a_format settings a_router a_submit)
    ⊎ (Requeued sorted_kv bad a_hash a_format settings a_router a_submit
          (resubmit sorted_kv bad a_hash a_format settings a_router a_submit)
        ⊎ Failed sorted_kv bad a_hash a_format settings
            (try_submit sorted_kv bad a_hash a_format settings a_router (50 ∷ []) (0 ∷ [])).0
            a_submit
            (resubmit sorted_kv bad a_hash a_format settings a_router a_submit))
resubmit_lossless_example =
    resubmit_lossless sorted_kv bad a_hash a_format settings a_router a_submit not_rest

abbrev rest_queued : Router (Entries Value)
rest_queued =
    record (submitted_of sorted_kv bad a_hash a_format settings a_router (49 ∷ []) (50 ∷ [])
      (72 ∷ []) [] []) { forward_ch = [] }

abbrev rest_attempt : PendingSubmit
rest_attempt =
    first_attempt sorted_kv bad a_hash a_format settings a_router (49 ∷ []) (50 ∷ []) (72 ∷ [])

abbrev rest_done : Router (Entries Value)
rest_done = forward_next sorted_kv bad a_hash a_format settings (
    submitted_of sorted_kv bad a_hash a_format settings a_router (49 ∷ []) (50 ∷ []) (72 ∷ []) []
      [])

http_submit-forward_next_example :
    Traced sorted_kv bad a_hash a_format settings rest_queued rest_attempt rest_done
    ⊎ (Requeued sorted_kv bad a_hash a_format settings rest_queued rest_attempt rest_done
        ⊎ Failed sorted_kv bad a_hash a_format settings
            (tried sorted_kv bad a_hash a_format settings rest_queued rest_attempt)
            rest_attempt
            rest_done)
http_submit-forward_next_example =
    http_submit-forward_next sorted_kv bad a_hash a_format settings a_router (49 ∷ []) (50 ∷ [])
      (72 ∷ []) [] [] refl refl
