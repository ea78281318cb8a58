-- ===== src/Gateway/Router/Submit/Rest.antt =====
-- What becomes of a REST submission, through HandleHTTPSubmit of gateway/rest_api.go and a forward worker
-- of gateway/router.go.
use go_smsc.Prelude.{
  ℕ, ◌≡◌, refl, ◌∙◌, ap, true, List, [], ◌∷◌, none, some, if◌then◌else◌, Option-cases, inl, inr,
  ◌⊎◌, ltb,
}
use go_smsc.Prelude.Keys.{Key, key_eq, key_eq_refl}
use go_smsc.Gateway.Bodies.{build_submit_sm_body}
use go_smsc.Gateway.ShardMap.{get, set}
use go_smsc.Gateway.ShardMap.Steps.{get-set}
use go_smsc.Gateway.Store.{Value, PendingSubmit}
use go_smsc.Gateway.Store.Database.{Kv}
use go_smsc.Gateway.Router.{Router, World, Settings, Correlation, ForwardTask, rest_api}
use go_smsc.Gateway.Router.Forwarding.{try_submit, enqueue_submit_retry_or_fail, forward_submit_raw}
use go_smsc.Gateway.Router.Forwarding.Outcomes.{
  Accepted, Requeued, Failed, tried, retry_or_fail_lem, Requeued-try_submit, try_submit-Accepted,
}
use go_smsc.Gateway.Router.Inbound.RoundTrip.{
  task_of, id_of, forward_submit_raw-correlation, forward_next_lem,
}
use go_smsc.Gateway.Router.Submit.{http_submit, enqueue_forward, next_msg_id, forward_next}

module _ {Db S : Type 0} (kv : Kv Db Value) (world : World S) (fnv32a : Key → ℕ) (format : ℕ → Key)
    (cfg : Settings) where
  abbrev pub submitted_of : Router Db → Key → Key → Key → Key → Key → Router Db
  submitted_of r from to text reference callback_url =
      http_submit kv world fnv32a format cfg r from to text reference callback_url

  -- The first attempt at a REST submission, which has no connection.
  abbrev pub first_attempt : Router Db → Key → Key → Key → PendingSubmit
  first_attempt r from to text = record {
    gw_msg_id = id_of kv world fnv32a format cfg r;
    conn_id = [];
    msisdn = to;
    source_addr = from;
    raw_body = build_submit_sm_body from to text;
    retry_count = 0;
    enqueued_at = 0;
  }

  -- An SMSC has accepted the submission, and its message id leads to "rest-api".
  abbrev pub Traced : Router Db → PendingSubmit → Router Db → Type 0
  Traced r p r' =
      (smsc_msg_id : Key) × Accepted kv world fnv32a format cfg r p smsc_msg_id
      × (corr : Correlation) × (get fnv32a r'.smsc_correlation smsc_msg_id ≡ some corr)
      × (corr.gw_msg_id ≡ p.gw_msg_id)
      × (corr.north_conn_id ≡ rest_api)

  abbrev rest_task : PendingSubmit → ForwardTask
  rest_task p =
      task_of kv world fnv32a format cfg none p.gw_msg_id p.msisdn p.source_addr p.raw_body

  abbrev rest_corr : Router Db → Key → Correlation
  rest_corr r to = record {
    gw_msg_id = id_of kv world fnv32a format cfg r;
    north_conn_id = rest_api;
    msisdn = to;
    submitted_at = world.now r.clock;
  }

  http_submit_lem :
      (r : Router Db) (from to text reference callback_url : Key)
      → r.forward_ch ≡ []
      → ltb 0 cfg.forward_queue_size ≡ true
      → ((submitted_of r from to text reference callback_url).forward_ch
          ≡ rest_task (first_attempt r from to text) ∷ [])
        × ((submitted_of r from to text reference callback_url).gw_correlation
            ≡ set fnv32a r.gw_correlation (id_of kv world fnv32a format cfg r) (rest_corr r to))
  unfolding http_submit enqueue_forward next_msg_id
  http_submit_lem r from to text reference callback_url empty room = rw (empty, room) (refl, refl)

  abbrev forwarded_of : Router Db → PendingSubmit → Router Db
  forwarded_of r p = forward_submit_raw kv world fnv32a format cfg r (rest_task p)

  abbrev attempt : Key → Key → Key → List ℕ → PendingSubmit
  attempt gw_msg_id dest_addr source_addr raw_body = record {
    gw_msg_id = gw_msg_id;
    conn_id = [];
    msisdn = dest_addr;
    source_addr = source_addr;
    raw_body = raw_body;
    retry_count = 0;
    enqueued_at = 0;
  }

  -- A task without a connection that no SMSC accepts is retried for the connection "".
  refused_lem :
      (r : Router Db) (gw_msg_id dest_addr source_addr : Key) (raw_body : List ℕ)
      → (try_submit kv world fnv32a format cfg r dest_addr raw_body).1 ≡ none
      → Requeued kv world fnv32a format cfg r
          (attempt gw_msg_id dest_addr source_addr raw_body)
          (forwarded_of r (attempt gw_msg_id dest_addr source_addr raw_body))
        ⊎ Failed kv world fnv32a format cfg
            (tried kv world fnv32a format cfg r (attempt gw_msg_id dest_addr source_addr raw_body))
            (attempt gw_msg_id dest_addr source_addr raw_body)
            (forwarded_of r (attempt gw_msg_id dest_addr source_addr raw_body))
  unfolding forward_submit_raw key_eq
  refused_lem r gw_msg_id dest_addr source_addr raw_body e =
      let p : PendingSubmit = attempt gw_msg_id dest_addr source_addr raw_body in
      let after : Router Db = tried kv world fnv32a format cfg r p in
      rw (e, forward_submit_raw)
        (elim (retry_or_fail_lem kv world fnv32a format cfg after p refl) [
          | inl q ↦ inl (
              Requeued-try_submit kv world fnv32a format cfg r p
                (enqueue_submit_retry_or_fail kv world fnv32a format cfg after gw_msg_id []
                  dest_addr source_addr raw_body 0)
                q)
          | inr f ↦ inr f
        ])

  -- A REST submission that a worker forwards has one of three outcomes. An SMSC accepts it, and the
  -- SMSC's message id leads to the submission's and to "rest-api". Or the submission is in the retry
  -- queue, if there is a store, within the limit, but for the connection "" instead of "rest-api". Or
  -- a failure receipt for it is sent to the connection "", and nothing else happens, so that no
  -- callback hears of it. The queue of tasks is empty before and has room.
  pub http_submit-forward_next :
      (r : Router Db) (from to text reference callback_url : Key)
      → r.forward_ch ≡ []
      → ltb 0 cfg.forward_queue_size ≡ true
      → let queued = record (submitted_of r from to text reference callback_url) {
        forward_ch = [];
      } in
        let p = first_attempt r from to text in
        let done =
          forward_next kv world fnv32a format cfg
            (submitted_of r from to text reference callback_url) in
        Traced queued p done
        ⊎ (Requeued kv world fnv32a format cfg queued p done
            ⊎ Failed kv world fnv32a format cfg (tried kv world fnv32a format cfg queued p) p done)
  http_submit-forward_next r from to text reference callback_url empty room =
      let submitted : Router Db = submitted_of r from to text reference callback_url in
      let queued : Router Db = record submitted { forward_ch = [] } in
      let p : PendingSubmit = first_attempt r from to text in
      let (tasks, correlations) =
        http_submit_lem r from to text reference callback_url empty room in
      let known : get fnv32a queued.gw_correlation p.gw_msg_id ≡ some (rest_corr r to) =
        ap (λ m. get fnv32a m p.gw_msg_id) correlations
        ∙ get-set fnv32a r.gw_correlation p.gw_msg_id p.gw_msg_id (rest_corr r to)
        ∙ ap (λ b. if b then some (rest_corr r to) else get fnv32a r.gw_correlation p.gw_msg_id)
            (key_eq_refl p.gw_msg_id) in
      rw (forward_next_lem kv world fnv32a format cfg submitted (rest_task p) tasks)
        (elim (Option-cases (try_submit kv world fnv32a format cfg queued to p.raw_body).1) [
          | inl e ↦ inr (refused_lem queued p.gw_msg_id to from p.raw_body e)
          | inr (id, e) ↦ inl (
            id,
            try_submit-Accepted kv world fnv32a format cfg queued p id e,
            rest_corr r to,
            forward_submit_raw-correlation kv world fnv32a format cfg queued none p.gw_msg_id to
                from p.raw_body (rest_corr r to) id e known,
            refl,
            refl,
          )
        ])
