-- ===== src/Gateway/Router/Forwarding.antt =====
-- forwardSubmitRaw, enqueueSubmitRetryOrFail, sendSyntheticDLR and drainSubmitRetries of
-- gateway/router.go: a submit_sm on its way to an SMSC, and what happens when that fails.
pub mod Outcomes
use go_smsc.Prelude.{
  ℕ, zero, suc, ◌+◌, ◌-◌, Bool, true, false, not, ◌&&◌, ◌||◌, List, [], ◌∷◌, ◌++◌, Option, none,
  some, leb, ltb, ◌==◌, if◌then◌else◌, length,
}
use go_smsc.Prelude.Int.{ℤ, pos, negsuc}
use go_smsc.Prelude.Keys.{Key, key_eq}
use go_smsc.Gateway.Bodies.{build_deliver_sm_body}
use go_smsc.Gateway.ShardMap.{get, set, delete}
use go_smsc.Gateway.Store.{
  Value, MessageStore, PendingSubmit, store_submit, delete_submit_by_gw_id, enqueue_submit_retry,
  drain_submit_retries,
}
use go_smsc.Gateway.Store.Database.{Kv}
use go_smsc.Gateway.Store.Records.{MessageStatus, MessageLogEntry}
use go_smsc.Gateway.Store.Status.{set_message_status, update_message_log}
use go_smsc.Gateway.Router.{
  Router, World, Settings, Correlation, ForwardTask, Answer, failed, rejected, accepted, submit_raw,
  in_flight, map_store, with_store, asked, happened, rest_api, has_store,
}
use go_smsc.Gateway.Router.Delivery.{deliver_with_grace}
use go_smsc.Gateway.Router.Callbacks.{deliver_dlr_callback}

-- "failed", "forwarded" and "UNDELIV"
abbrev pub failed_text : Key
failed_text = 102 ∷ 97 ∷ 105 ∷ 108 ∷ 101 ∷ 100 ∷ []

abbrev pub forwarded_text : Key
forwarded_text = 102 ∷ 111 ∷ 114 ∷ 119 ∷ 97 ∷ 114 ∷ 100 ∷ 101 ∷ 100 ∷ []

abbrev pub undeliv : Key
undeliv = 85 ∷ 78 ∷ 68 ∷ 69 ∷ 76 ∷ 73 ∷ 86 ∷ []

-- "id:%s sub:001 dlvrd:000 submit date:0000000000 done date:0000000000 stat:UNDELIV err:001 text:"
abbrev pub receipt_tail : Key
receipt_tail =
    32 ∷ 115 ∷ 117 ∷ 98 ∷ 58 ∷ 48 ∷ 48 ∷ 49 ∷ 32 ∷ 100 ∷ 108 ∷ 118 ∷ 114 ∷ 100 ∷ 58 ∷ 48 ∷ 48 ∷ 48
    ∷ 32 ∷ 115 ∷ 117 ∷ 98 ∷ 109 ∷ 105 ∷ 116 ∷ 32 ∷ 100 ∷ 97 ∷ 116 ∷ 101 ∷ 58 ∷ 48 ∷ 48 ∷ 48 ∷ 48
    ∷ 48 ∷ 48 ∷ 48 ∷ 48 ∷ 48 ∷ 48 ∷ 32 ∷ 100 ∷ 111 ∷ 110 ∷ 101 ∷ 32 ∷ 100 ∷ 97 ∷ 116 ∷ 101 ∷ 58 ∷ 48
    ∷ 48 ∷ 48 ∷ 48 ∷ 48 ∷ 48 ∷ 48 ∷ 48 ∷ 48 ∷ 48 ∷ 32 ∷ 115 ∷ 116 ∷ 97 ∷ 116 ∷ 58 ∷ 85 ∷ 78 ∷ 68
    ∷ 69 ∷ 76 ∷ 73 ∷ 86 ∷ 32 ∷ 101 ∷ 114 ∷ 114 ∷ 58 ∷ 48 ∷ 48 ∷ 49 ∷ 32 ∷ 116 ∷ 101 ∷ 120 ∷ 116 ∷ 58
    ∷ []

unfoldable pub synthetic_receipt : Key → Key
synthetic_receipt gw_msg_id = 105 ∷ 100 ∷ 58 ∷ gw_msg_id ++ receipt_tail

-- "synth-%s"
abbrev pub synth_id : Key → Key
synth_id id = 115 ∷ 121 ∷ 110 ∷ 116 ∷ 104 ∷ 45 ∷ id

-- `maxSubmitRetries > 0 && retryCount < maxSubmitRetries`
unfoldable pub may_retry : ℤ → ℕ → Bool
may_retry (pos max) retry_count = ltb 0 max && ltb retry_count max
may_retry (negsuc n) retry_count = false

abbrev pub conn_id_of : Option Key → Key
conn_id_of none = []
conn_id_of (some id) = id

module _ {Db S : Type 0} (kv : Kv Db Value) (world : World S) (fnv32a : Key → ℕ) (format : ℕ → Key)
    (cfg : Settings) where
  -- UpdateMessageLog, with the time of the call
  unfoldable pub log_update : Router Db → Key → (MessageLogEntry → MessageLogEntry) → Router Db
  unfolding update_message_log
  log_update r gw_msg_id updater =
      with_store r (λ s. update_message_log kv format (world.now r.clock) s gw_msg_id updater)

  unfoldable pub send_synthetic_dlr : Router Db → Key → Key → Key → Key → Router Db
  unfolding log_update synthetic_receipt
  send_synthetic_dlr r conn_id gw_msg_id dest_addr source_addr =
      let logged =
        log_update r gw_msg_id (λ e. record e { status = failed_text; dlr_status = undeliv }) in
      let status : MessageStatus = record {
        gw_msg_id = gw_msg_id;
        to = dest_addr;
        from = source_addr;
        reference = [];
        status = failed_text;
        dlr_status = undeliv;
        smsc_msg_id = [];
        updated_at = world.now logged.clock;
      } in
      let reported =
        deliver_dlr_callback kv world (with_store logged (λ s. set_message_status kv s status))
          gw_msg_id undeliv in
      let body = build_deliver_sm_body source_addr dest_addr 4 (synthetic_receipt gw_msg_id) in
      let sent =
        (deliver_with_grace kv world cfg logged conn_id body dest_addr 4 source_addr dest_addr
          (synth_id gw_msg_id) true).0 in
      let done = if key_eq conn_id rest_api then reported else sent in
      record done { gw_correlation = delete fnv32a done.gw_correlation gw_msg_id }

  unfoldable pub enqueue_submit_retry_or_fail :
      Router Db → Key → Key → Key → Key → List ℕ → ℕ → Router Db
  unfolding may_retry has_store send_synthetic_dlr
  enqueue_submit_retry_or_fail r gw_msg_id conn_id dest_addr source_addr raw_body retry_count =
      let pending : PendingSubmit = record {
        gw_msg_id = gw_msg_id;
        conn_id = conn_id;
        msisdn = dest_addr;
        source_addr = source_addr;
        raw_body = raw_body;
        retry_count = retry_count + 1;
        enqueued_at = world.now r.clock;
      } in
      if may_retry cfg.max_submit_retries retry_count && has_store r
      then with_store (asked r) (λ s. enqueue_submit_retry kv s pending)
      else send_synthetic_dlr r conn_id gw_msg_id dest_addr source_addr

  -- What is kept of a submit that an SMSC has accepted. The correlation is the one of the gateway
  -- message id, or else one with this connection.
  unfoldable pub keep_accepted :
      Router Db → Correlation → Key → Key → Key → Key → Key → List ℕ → Router Db
  unfolding log_update
  keep_accepted r corr smsc_msg_id conn_id gw_msg_id dest_addr source_addr raw_body =
      let stored : MessageStore Db → MessageStore Db = λ s.
        delete_submit_by_gw_id kv
          (store_submit kv s (record {
            gw_msg_id = gw_msg_id;
            smsc_msg_id = smsc_msg_id;
            north_conn_id = conn_id;
            orig_seq_num = 0;
            msisdn = dest_addr;
            source_addr = source_addr;
            payload = raw_body;
            submitted_at = corr.submitted_at;
          }))
          gw_msg_id in
      let status : MessageStatus = record {
        gw_msg_id = gw_msg_id;
        to = dest_addr;
        from = source_addr;
        reference = [];
        status = forwarded_text;
        dlr_status = [];
        smsc_msg_id = smsc_msg_id;
        updated_at = world.now r.clock;
      } in
      let tracked : MessageStore Db → MessageStore Db =
        λ s. if key_eq conn_id rest_api then set_message_status kv s status else s in
      log_update
        (asked (
          with_store
            (record r { smsc_correlation = set fnv32a r.smsc_correlation smsc_msg_id corr })
            (λ s. tracked (stored s))))
        gw_msg_id (λ e. record e { status = forwarded_text; smsc_msg_id = smsc_msg_id })

  -- The submitter of the MT routes, else the one to fall back to.
  unfoldable pub find_submitter : Router Db → Key → Option S
  find_submitter r dest_addr = elim (world.routed r.clock dest_addr) [
    | some sub ↦ some sub
    | none ↦ world.southbound
  ]

  -- SubmitRaw; the message id where it is accepted.
  unfoldable pub try_submit : Router Db → Key → List ℕ → Router Db × Option Key
  unfolding find_submitter
  try_submit r dest_addr raw_body = elim (find_submitter r dest_addr) [
    | none ↦ (asked r, none)
    | some sub ↦
        let answer = world.submits (r.clock + 1) sub raw_body in
        (
          happened (asked r) (submit_raw raw_body answer),
          elim answer [ failed ↦ none | rejected ↦ none | accepted id ↦ some id ],
        )
  ]

  unfoldable pub forward_submit_raw : Router Db → ForwardTask → Router Db
  unfolding try_submit keep_accepted enqueue_submit_retry_or_fail
  forward_submit_raw r task =
      let conn_id = conn_id_of task.conn in
      let (tried, answer) = try_submit r task.dest_addr task.raw_body in
      let corr : Correlation = elim (get fnv32a tried.gw_correlation task.gw_msg_id) [
        | some corr ↦ corr
        | none ↦ record {
          gw_msg_id = task.gw_msg_id;
          north_conn_id = conn_id;
          msisdn = task.dest_addr;
          submitted_at = world.now tried.clock;
        }
      ] in
      let done : Router Db = elim answer [
        | none ↦
            enqueue_submit_retry_or_fail tried task.gw_msg_id conn_id task.dest_addr
              task.source_addr task.raw_body 0
        | some id ↦
            keep_accepted tried corr id conn_id task.gw_msg_id task.dest_addr task.source_addr
              task.raw_body
      ] in
      elim task.conn [ none ↦ done | some id ↦ happened done (in_flight id (negsuc 0)) ]

  -- The body of drainSubmitRetries' loop.
  unfoldable pub resubmit : Router Db → PendingSubmit → Router Db
  unfolding try_submit keep_accepted enqueue_submit_retry_or_fail
  resubmit r p =
      let (tried, answer) = try_submit r p.msisdn p.raw_body in
      elim answer [
        | none ↦
            enqueue_submit_retry_or_fail tried p.gw_msg_id p.conn_id p.msisdn p.source_addr
              p.raw_body p.retry_count
        | some id ↦
            keep_accepted tried
              (record {
                gw_msg_id = p.gw_msg_id;
                north_conn_id = p.conn_id;
                msisdn = p.msisdn;
                submitted_at = world.now tried.clock;
              })
              id p.conn_id p.gw_msg_id p.msisdn p.source_addr p.raw_body
      ]

  unfoldable pub resubmit_all : Router Db → List PendingSubmit → Router Db
  unfolding resubmit
  resubmit_all r [] = r
  resubmit_all r (p ∷ pending) = resubmit_all (resubmit r p) pending

  -- drainSubmitRetries
  unfoldable pub retry_submits : Router Db → Router Db
  unfolding resubmit_all
  retry_submits r = elim r.store [
    | none ↦ r
    | some s ↦
        let (s', pending) = drain_submit_retries kv s cfg.submit_retry_drain_limit in
        resubmit_all (record r { store = some s' }) pending
  ]
