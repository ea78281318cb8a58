-- ===== src/Gateway/Router/Submit.antt =====
-- The second half of HandleSubmit of gateway/router.go, for a submit_sm that is admitted, the forward
-- workers, and HandleHTTPSubmit of gateway/rest_api.go from its checked request on.
pub mod Rest
use go_smsc.Prelude.{ℕ, ◌+◌, ◌%◌, Bool, List, [], ◌∷◌, ◌++◌, none, some, ltb, if◌then◌else◌, length}
use go_smsc.Prelude.Int.{pos, negsuc}
use go_smsc.Prelude.Keys.{Key, key_eq}
use go_smsc.Gateway.Bodies.{build_submit_sm_body}
use go_smsc.Gateway.Decimal.{decimal}
use go_smsc.Gateway.ShardMap.{set}
use go_smsc.Gateway.Store.{Value, MessageStore, SubmitRecord, store_submit}
use go_smsc.Gateway.Store.Database.{Kv}
use go_smsc.Gateway.Store.Records.{MessageStatus, MessageLogEntry, callback}
use go_smsc.Gateway.Store.Status.{set_message_status, log_message, set_tracking, callback_prefix}
use go_smsc.Gateway.Router.{
  Router, World, Settings, Correlation, ForwardTask, submit_sm_resp, in_flight, with_store, asked,
  happened, rest_api,
}
use go_smsc.Gateway.Router.Forwarding.{enqueue_submit_retry_or_fail, forward_submit_raw}

-- "accepted"
abbrev pub accepted_text : Key
accepted_text = 97 ∷ 99 ∷ 99 ∷ 101 ∷ 112 ∷ 116 ∷ 101 ∷ 100 ∷ []

-- "GW-%d"
unfoldable pub gw_id : ℕ → Key
gw_id n = 71 ∷ 87 ∷ 45 ∷ decimal n

module _ {Db S : Type 0} (kv : Kv Db Value) (world : World S) (fnv32a : Key → ℕ) (format : ℕ → Key)
    (cfg : Settings) where
  -- The counter is a uint64.
  unfoldable pub next_msg_id : Router Db → Router Db × Key
  unfolding gw_id
  next_msg_id r =
      let n = (r.msg_seq + 1) % 18446744073709551616 in (record r { msg_seq = n }, gw_id n)

  -- The task goes to the workers, or, when their queue is full, to the retry queue as a submit of a
  -- connection; the connection's count of messages in flight is then put back.
  unfoldable pub enqueue_forward : Router Db → ForwardTask → Key → Router Db
  unfolding enqueue_submit_retry_or_fail
  enqueue_forward r task conn_id =
      let put_back : Router Db = elim task.conn [
        | none ↦ r
        | some id ↦ happened r (in_flight id (negsuc 0))
      ] in
      if ltb (length r.forward_ch) cfg.forward_queue_size
      then record r { forward_ch = r.forward_ch ++ task ∷ [] }
      else enqueue_submit_retry_or_fail kv world fnv32a format cfg put_back task.gw_msg_id conn_id
          task.dest_addr task.source_addr task.raw_body 0

  -- From "Update MSISDN → connID affinity" on; `known` says that the server knows the connection.
  unfoldable pub accept_submit : Router Db → Bool → Key → ℕ → Key → Key → List ℕ → Router Db
  unfolding next_msg_id enqueue_forward
  accept_submit r known conn_id seq_num source_addr dest_addr body =
      let affine =
        if key_eq dest_addr []
        then r.msisdn_affinity
        else set fnv32a r.msisdn_affinity dest_addr conn_id in
      let (numbered, id) = next_msg_id (record r { msisdn_affinity = affine }) in
      let answered : Router Db =
        if known then happened numbered (submit_sm_resp conn_id seq_num id) else numbered in
      let time = world.now answered.clock in
      let corr : Correlation = record {
        gw_msg_id = id;
        north_conn_id = conn_id;
        msisdn = dest_addr;
        submitted_at = time;
      } in
      let submit : SubmitRecord = record {
        gw_msg_id = id;
        smsc_msg_id = [];
        north_conn_id = conn_id;
        orig_seq_num = seq_num;
        msisdn = dest_addr;
        source_addr = source_addr;
        payload = body;
        submitted_at = time;
      } in
      let entry : MessageLogEntry = record {
        gw_msg_id = id;
        smsc_msg_id = [];
        conn_id = conn_id;
        source_addr = source_addr;
        dest_addr = dest_addr;
        status = accepted_text;
        dlr_status = [];
        created_at = 0;
        updated_at = 0;
      } in
      let kept : Router Db =
        with_store (record answered { gw_correlation = set fnv32a answered.gw_correlation id corr })
          (λ s. log_message kv format time (store_submit kv s submit) entry) in
      let counted : Router Db =
        if known then happened kept (in_flight conn_id (pos 1)) else asked kept in
      enqueue_forward counted
        (record {
          conn = if known then some conn_id else none;
          gw_msg_id = id;
          dest_addr = dest_addr;
          source_addr = source_addr;
          raw_body = body;
        })
        conn_id

  -- A forward worker takes the first task.
  unfoldable pub forward_next : Router Db → Router Db
  unfolding forward_submit_raw
  forward_next r = elim r.forward_ch [
    | [] ↦ r
    | task ∷ tasks ↦
        forward_submit_raw kv world fnv32a format cfg (record r { forward_ch = tasks }) task
  ]

  -- A REST submission; the texts are not empty.
  unfoldable pub http_submit : Router Db → Key → Key → Key → Key → Key → Router Db
  unfolding next_msg_id enqueue_forward
  http_submit r from to text reference callback_url =
      let (numbered, id) = next_msg_id r in
      let body = build_submit_sm_body from to text in
      let time = world.now numbered.clock in
      let corr : Correlation = record {
        gw_msg_id = id;
        north_conn_id = rest_api;
        msisdn = to;
        submitted_at = time;
      } in
      let submit : SubmitRecord = record {
        gw_msg_id = id;
        smsc_msg_id = [];
        north_conn_id = rest_api;
        orig_seq_num = 0;
        msisdn = to;
        source_addr = from;
        payload = body;
        submitted_at = time;
      } in
      let status : MessageStatus = record {
        gw_msg_id = id;
        to = to;
        from = from;
        reference = reference;
        status = accepted_text;
        dlr_status = [];
        smsc_msg_id = [];
        updated_at = time;
      } in
      let named : MessageStore Db → MessageStore Db = λ s.
        if key_eq callback_url []
        then s
        else set_tracking kv s (callback_prefix ++ id) (
            callback (record {
              gw_msg_id = id;
              callback_url = callback_url;
              reference = reference;
              retries = 0;
              next_attempt = 0;
            })) in
      let kept : Router Db =
        with_store (record numbered { gw_correlation = set fnv32a numbered.gw_correlation id corr })
          (λ s. named (set_message_status kv (store_submit kv s submit) status)) in
      enqueue_forward (asked kept)
        (record {
          conn = none;
          gw_msg_id = id;
          dest_addr = to;
          source_addr = from;
          raw_body = body;
        })
        rest_api
