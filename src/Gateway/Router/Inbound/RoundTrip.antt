-- ===== src/Gateway/Router/Inbound/RoundTrip.antt =====
-- A message from the engine to an SMSC and its DLR back, through HandleSubmit, a forward worker and
-- handleDLR of gateway/router.go.
use go_smsc.Prelude.{
  ℕ, ◌+◌, ◌≡◌, refl, ◌∙◌, ap, Bool, true, false, List, [], ◌∷◌, ◌++◌, Option, none, some,
  if◌then◌else◌, Option-cases, inl, inr, ltb,
}
use go_smsc.Prelude.Int.{pos}
use go_smsc.Prelude.Keys.{Key, key_eq, key_eq_refl}
use go_smsc.Smpp.Receipts.{DlrReceipt, parse_dlr_receipt, translate_dlr_message_id}
use go_smsc.Gateway.Bodies.{build_deliver_sm_body}
use go_smsc.Gateway.ShardMap.{get, set}
use go_smsc.Gateway.ShardMap.Steps.{get-set}
use go_smsc.Gateway.Store.{Value}
use go_smsc.Gateway.Store.Database.{Kv}
use go_smsc.Gateway.Router.{
  Router, World, Settings, Correlation, ForwardTask, Event, deliver_sm, submit_sm_resp, in_flight,
  rest_api,
}
use go_smsc.Gateway.Router.Forwarding.{try_submit, find_submitter, forward_submit_raw}
use go_smsc.Gateway.Router.Forwarding.Outcomes.{keep_accepted-correlation}
use go_smsc.Gateway.Router.Submit.{accept_submit, enqueue_forward, next_msg_id, forward_next}
use go_smsc.Gateway.Router.Inbound.{find_correlation, handle_dlr}
use go_smsc.Gateway.Router.Inbound.Reports.{OnlyCallbacks, handle_dlr-translated}

module _ {Db S : Type 0} (kv : Kv Db Value) (world : World S) (fnv32a : Key → ℕ) (format : ℕ → Key)
    (cfg : Settings) where
  try_submit-gw_correlation :
      (r : Router Db) (dest_addr : Key) (raw_body : List ℕ)
      → (try_submit kv world fnv32a format cfg r dest_addr raw_body).0.gw_correlation
        ≡ r.gw_correlation
  unfolding try_submit
  try_submit-gw_correlation r dest_addr raw_body =
      elim (Option-cases (find_submitter kv world fnv32a format cfg r dest_addr)) [
        | inl e ↦ rw (e, try_submit) refl
        | inr (sub, e) ↦ rw (e, try_submit) refl
      ]

  abbrev pub task_of : Option Key → Key → Key → Key → List ℕ → ForwardTask
  task_of conn gw_msg_id dest_addr source_addr raw_body = record {
    conn = conn;
    gw_msg_id = gw_msg_id;
    dest_addr = dest_addr;
    source_addr = source_addr;
    raw_body = raw_body;
  }

  -- When an SMSC accepts a task, its message id leads to the correlation of the gateway's message
  -- id.
  pub forward_submit_raw-correlation :
      (r : Router Db) (conn : Option Key) (gw_msg_id dest_addr source_addr : Key)
      (raw_body : List ℕ) (corr : Correlation) (smsc_msg_id : Key)
      → (try_submit kv world fnv32a format cfg r dest_addr raw_body).1 ≡ some smsc_msg_id
      → get fnv32a r.gw_correlation gw_msg_id ≡ some corr
      → get fnv32a
          (forward_submit_raw kv world fnv32a format cfg r
            (task_of conn gw_msg_id dest_addr source_addr raw_body)).smsc_correlation
          smsc_msg_id
        ≡ some corr
  unfolding forward_submit_raw
  forward_submit_raw-correlation r none gw_msg_id dest_addr source_addr raw_body corr smsc_msg_id e
        g =
      let known : _ =
        ap (λ m. get fnv32a m gw_msg_id) (try_submit-gw_correlation r dest_addr raw_body) ∙ g in
      rw (e, known, forward_submit_raw)
        (keep_accepted-correlation kv world fnv32a format cfg
          (try_submit kv world fnv32a format cfg r dest_addr raw_body).0 corr smsc_msg_id []
          gw_msg_id dest_addr source_addr raw_body)
  forward_submit_raw-correlation r (some id) gw_msg_id dest_addr source_addr raw_body corr
        smsc_msg_id e g =
      let known : _ =
        ap (λ m. get fnv32a m gw_msg_id) (try_submit-gw_correlation r dest_addr raw_body) ∙ g in
      rw (e, known, forward_submit_raw)
        (keep_accepted-correlation kv world fnv32a format cfg
          (try_submit kv world fnv32a format cfg r dest_addr raw_body).0 corr smsc_msg_id id
          gw_msg_id dest_addr source_addr raw_body)

  -- The router after an accepted submit_sm, and after a worker has forwarded it.
  abbrev pub accepted_of : Router Db → Key → ℕ → Key → Key → List ℕ → Router Db
  accepted_of r conn_id seq_num source_addr dest_addr body =
      accept_submit kv world fnv32a format cfg r true conn_id seq_num source_addr dest_addr body

  -- The message id of the next submit.
  abbrev pub id_of : Router Db → Key
  id_of r = (next_msg_id kv world fnv32a format cfg r).1

  abbrev corr_of : Router Db → Key → Key → Correlation
  corr_of r conn_id dest_addr = record {
    gw_msg_id = id_of r;
    north_conn_id = conn_id;
    msisdn = dest_addr;
    submitted_at = world.now (r.clock + 1);
  }

  -- With no task waiting and room in the queue, the submit_sm is acknowledged under a new message
  -- id, is the task of the next worker, and its message id leads to its connection.
  accept_submit_lem :
      (r : Router Db) (conn_id : Key) (seq_num : ℕ) (source_addr dest_addr : Key) (body : List ℕ)
      → r.forward_ch ≡ []
      → ltb 0 cfg.forward_queue_size ≡ true
      → ((accepted_of r conn_id seq_num source_addr dest_addr body).forward_ch
          ≡ task_of (some conn_id) (id_of r) dest_addr source_addr body ∷ [])
        × ((accepted_of r conn_id seq_num source_addr dest_addr body).events
            ≡ in_flight conn_id (pos 1) ∷ submit_sm_resp conn_id seq_num (id_of r) ∷ r.events)
        × ((accepted_of r conn_id seq_num source_addr dest_addr body).gw_correlation
            ≡ set fnv32a r.gw_correlation (id_of r) (corr_of r conn_id dest_addr))
  unfolding accept_submit enqueue_forward next_msg_id
  accept_submit_lem r conn_id seq_num source_addr dest_addr body empty room =
      rw (empty, room) (refl, refl, refl)

  pub forward_next_lem :
      (r : Router Db) (task : ForwardTask)
      → r.forward_ch ≡ task ∷ []
      → forward_next kv world fnv32a format cfg r
        ≡ forward_submit_raw kv world fnv32a format cfg (record r { forward_ch = [] }) task
  unfolding forward_next
  forward_next_lem r task h = rw (h, forward_next) refl

  find_correlation_lem :
      (r : Router Db) (smsc_msg_id : Key) (corr : Correlation)
      → get fnv32a r.smsc_correlation smsc_msg_id ≡ some corr
      → find_correlation kv world fnv32a format cfg r smsc_msg_id ≡ some corr
  unfolding find_correlation
  find_correlation_lem r smsc_msg_id corr g = rw (g, find_correlation) refl

  -- A message that an engine submits is acknowledged under a message id of the gateway, and when a
  -- worker has forwarded it and the SMSC that accepted it sends a DLR with the message id that it
  -- gave, the engine that submitted the message, and no other, is sent that DLR with the message
  -- id that it was acknowledged with; besides, only callbacks get reports. The queue of tasks is
  -- empty before and has room, and the SMSC's message id is the one of the receipt.
  pub handle_dlr-accept_submit :
      (r : Router Db) (conn_id : Key) (seq_num : ℕ) (source_addr dest_addr : Key) (body : List ℕ)
      (dlr_source dlr_dest : Key) (esm_class : ℕ) (payload : List ℕ) (receipt : DlrReceipt)
      → key_eq conn_id rest_api ≡ false
      → r.forward_ch ≡ []
      → ltb 0 cfg.forward_queue_size ≡ true
      → (try_submit kv world fnv32a format cfg
          (record (accepted_of r conn_id seq_num source_addr dest_addr body) { forward_ch = [] })
          dest_addr
          body).1
        ≡ some receipt.message_id
      → parse_dlr_receipt payload ≡ some receipt
      → ((accepted_of r conn_id seq_num source_addr dest_addr body).events
          ≡ in_flight conn_id (pos 1) ∷ submit_sm_resp conn_id seq_num (id_of r) ∷ r.events)
        × ((acked : Bool) × (calls : List Event) × OnlyCallbacks calls
            × ((handle_dlr kv world fnv32a format cfg
                  (forward_next kv world fnv32a format cfg
                    (accepted_of r conn_id seq_num source_addr dest_addr body))
                  dlr_source
                  dlr_dest
                  esm_class
                  payload).events
                ≡ calls
                  ++ deliver_sm conn_id
                      (build_deliver_sm_body dlr_source dlr_dest esm_class
                        (translate_dlr_message_id payload receipt.message_id (id_of r)))
                      acked
                    ∷ (forward_next kv world fnv32a format cfg
                        (accepted_of r conn_id seq_num source_addr dest_addr body)).events))
  handle_dlr-accept_submit r conn_id seq_num source_addr dest_addr body dlr_source dlr_dest
        esm_class payload receipt h empty room e p =
      let accepted : Router Db = accepted_of r conn_id seq_num source_addr dest_addr body in
      let corr : Correlation = corr_of r conn_id dest_addr in
      let (tasks, events, correlations) =
        accept_submit_lem r conn_id seq_num source_addr dest_addr body empty room in
      let known : get fnv32a accepted.gw_correlation (id_of r) ≡ some corr =
        ap (λ m. get fnv32a m (id_of r)) correlations
        ∙ get-set fnv32a r.gw_correlation (id_of r) (id_of r) corr
        ∙ ap (λ b. if b then some corr else get fnv32a r.gw_correlation (id_of r))
            (key_eq_refl (id_of r)) in
      let forwarded : Router Db = forward_next kv world fnv32a format cfg accepted in
      let correlated : get fnv32a forwarded.smsc_correlation receipt.message_id ≡ some corr =
        ap (λ x. get fnv32a x.smsc_correlation receipt.message_id)
          (forward_next_lem accepted (task_of (some conn_id) (id_of r) dest_addr source_addr body)
            tasks)
        ∙ forward_submit_raw-correlation (record accepted { forward_ch = [] }) (some conn_id)
            (id_of r) dest_addr source_addr body corr receipt.message_id e known in
      let found : find_correlation kv world fnv32a format cfg forwarded receipt.message_id
          ≡ some corr =
        find_correlation_lem forwarded receipt.message_id corr correlated in
      let (acked, calls, only, sent, smsc, gw) =
        handle_dlr-translated kv world fnv32a format cfg forwarded dlr_source dlr_dest esm_class
          payload receipt corr p found h in
      (events, (acked, calls, only, sent))
