-- ===== src/Gateway/Router/Forwarding/Outcomes.antt =====
-- What becomes of a submit_sm in forwardSubmitRaw and drainSubmitRetries of gateway/router.go.
use go_smsc.Prelude.{
  ℕ, ◌+◌, ◌≡◌, ◌≤◌, refl, ◌∙◌, ap, sym, arith, Option, Bool, true, false, List, ◌∷◌, none, some,
  if◌then◌else◌, Bool-cases, Option-cases, inl, inr, ◌⊎◌,
}
use go_smsc.Prelude.Int.{ℤ, pos, negsuc}
use go_smsc.Prelude.Keys.{Key, key_eq, key_eq_refl}
use go_smsc.Gateway.Bodies.{build_deliver_sm_body}
use go_smsc.Gateway.ShardMap.{get}
use go_smsc.Gateway.ShardMap.Steps.{get-set}
use go_smsc.Gateway.Store.{Value, PendingSubmit, enqueue_submit_retry}
use go_smsc.Gateway.Store.Database.{Kv}
use go_smsc.Gateway.Router.{
  Router, World, Settings, Correlation, deliver_sm, map_store, rest_api, has_store, Answer, failed,
  rejected, accepted,
}
use go_smsc.Gateway.Router.Delivery.Targets.{deliver_with_grace-dlr}
use go_smsc.Gateway.Router.Forwarding.{
  may_retry, send_synthetic_dlr, enqueue_submit_retry_or_fail, keep_accepted, try_submit, resubmit,
  synthetic_receipt, synth_id, log_update, find_submitter, failed_text, undeliv,
}

-- A retry is only made below the limit.
may_retry_bound :
    (limit : ℤ) (count : ℕ)
    → may_retry limit count ≡ true
    → (max : ℕ) × (limit ≡ pos max) × (count + 1 ≤ max)
unfolding may_retry
may_retry_bound (pos max) count h = (max, refl, ground (arith, h))
may_retry_bound (negsuc n) count h = absurd (cc h)

abbrev id_of : Answer → Option Key
id_of answer = elim answer [ failed ↦ none | rejected ↦ none | accepted id ↦ some id ]

accepted_answer : (answer : Answer) (id : Key) → id_of answer ≡ some id → answer ≡ accepted id
accepted_answer failed id h = absurd (cc h)
accepted_answer rejected id h = absurd (cc h)
accepted_answer (accepted id') id h = cc h

module _ {Db S : Type 0} (kv : Kv Db Value) (world : World S) (fnv32a : Key → ℕ) (format : ℕ → Key)
    (cfg : Settings) where
  -- The submit is in the retry queue, as its next attempt, and that is within the limit.
  abbrev pub Requeued : Router Db → PendingSubmit → Router Db → Type 0
  Requeued r p r' =
      (time : ℕ) × (max : ℕ) × (cfg.max_submit_retries ≡ pos max)
      × (p.retry_count + 1 ≤ max)
      × (r'.store
          ≡ map_store
              (λ s.
                enqueue_submit_retry kv s
                  (record p { retry_count = p.retry_count + 1; enqueued_at = time }))
              r.store)

  -- The engine of the submit is sent a failure receipt for it, and last of all nothing else happened.
  abbrev pub Failed : Router Db → PendingSubmit → Router Db → Type 0
  Failed r p r' =
      (acked : Bool) × (r'.events
        ≡ deliver_sm p.conn_id
            (build_deliver_sm_body p.source_addr p.msisdn 4 (synthetic_receipt p.gw_msg_id)) acked
          ∷ r.events)

  -- SubmitRaw of the chosen submitter has answered with this message id.
  abbrev pub Accepted : Router Db → PendingSubmit → Key → Type 0
  Accepted r p smsc_msg_id =
      (sub : S) × (find_submitter kv world fnv32a format cfg r p.msisdn ≡ some sub)
      × (world.submits (r.clock + 1) sub p.raw_body ≡ accepted smsc_msg_id)

  -- The SMSC's message id leads to the submit's message id and to its engine.
  abbrev pub Correlated : Router Db → PendingSubmit → Router Db → Type 0
  Correlated r p r' =
      (smsc_msg_id : Key) × Accepted r p smsc_msg_id
      × (corr : Correlation) × (get fnv32a r'.smsc_correlation smsc_msg_id ≡ some corr)
      × (corr.gw_msg_id ≡ p.gw_msg_id)
      × (corr.north_conn_id ≡ p.conn_id)

  pub retry_or_fail_lem :
      (r : Router Db) (p : PendingSubmit)
      → key_eq p.conn_id rest_api ≡ false
      → Requeued r p (
          enqueue_submit_retry_or_fail kv world fnv32a format cfg r p.gw_msg_id p.conn_id p.msisdn
            p.source_addr p.raw_body p.retry_count)
        ⊎ Failed r p (
            enqueue_submit_retry_or_fail kv world fnv32a format cfg r p.gw_msg_id p.conn_id p.msisdn
              p.source_addr p.raw_body p.retry_count)
  unfolding enqueue_submit_retry_or_fail send_synthetic_dlr log_update
  retry_or_fail_lem r p h =
      let sent : _ =
        deliver_with_grace-dlr kv world cfg
          (log_update kv world fnv32a format cfg r p.gw_msg_id
            (λ e. record e { status = failed_text; dlr_status = undeliv }))
          p.conn_id (build_deliver_sm_body p.source_addr p.msisdn 4 (synthetic_receipt p.gw_msg_id))
          p.msisdn 4 p.source_addr p.msisdn (synth_id p.gw_msg_id) in
      elim (Bool-cases (may_retry cfg.max_submit_retries p.retry_count)) [
        | inl m ↦ elim (Bool-cases (has_store r)) [
          | inl s ↦
              let (max, e, b) = may_retry_bound cfg.max_submit_retries p.retry_count m in
              rw (m, s) (inl (_, max, e, b, refl))
          | inr s ↦ rw (m, s, h) (inr (_, sent.1))
        ]
        | inr m ↦ rw (m, h) (inr (_, sent.1))
      ]

  pub keep_accepted-correlation :
      (r : Router Db) (corr : Correlation)
      (smsc_msg_id conn_id gw_msg_id dest_addr source_addr : Key) (raw_body : List ℕ)
      → get fnv32a
          (keep_accepted kv world fnv32a format cfg r corr smsc_msg_id conn_id gw_msg_id dest_addr
            source_addr raw_body).smsc_correlation
          smsc_msg_id
        ≡ some corr
  unfolding keep_accepted log_update
  keep_accepted-correlation r corr smsc_msg_id conn_id gw_msg_id dest_addr source_addr raw_body =
      get-set fnv32a r.smsc_correlation smsc_msg_id smsc_msg_id corr
      ∙ ap (λ b. if b then some corr else get fnv32a r.smsc_correlation smsc_msg_id)
          (key_eq_refl smsc_msg_id)

  abbrev pub tried : Router Db → PendingSubmit → Router Db
  tried r p = (try_submit kv world fnv32a format cfg r p.msisdn p.raw_body).0

  try_submit-store :
      (r : Router Db) (dest_addr : Key) (raw_body : List ℕ)
      → (try_submit kv world fnv32a format cfg r dest_addr raw_body).0.store ≡ r.store
  unfolding try_submit
  try_submit-store r dest_addr raw_body =
      elim (Option-cases (find_submitter kv world fnv32a format cfg r dest_addr)) [
        | inl e ↦ rw (e, try_submit) refl
        | inr (sub, e) ↦ rw (e, try_submit) refl
      ]

  -- What counts as accepted is what the SMSC has accepted.
  pub try_submit-Accepted :
      (r : Router Db) (p : PendingSubmit) (id : Key)
      → (try_submit kv world fnv32a format cfg r p.msisdn p.raw_body).1 ≡ some id
      → Accepted r p id
  unfolding try_submit
  try_submit-Accepted r p id h =
      elim (Option-cases (find_submitter kv world fnv32a format cfg r p.msisdn)) [
        | inl e ↦ absurd (ground (arith, e, h))
        | inr (sub, e) ↦
            let answered : (try_submit kv world fnv32a format cfg r p.msisdn p.raw_body).1
                ≡ id_of (world.submits (r.clock + 1) sub p.raw_body) =
              rw (e, try_submit) refl in
            (
              sub,
              e,
              accepted_answer (world.submits (r.clock + 1) sub p.raw_body) id (sym answered ∙ h),
            )
      ]

  pub Requeued-try_submit :
      (r : Router Db) (p : PendingSubmit) (r' : Router Db)
      → Requeued (tried r p) p r'
      → Requeued r p r'
  Requeued-try_submit r p r' (time, max, e, b, q) =
      (time, max, e, b, q ∙ ap (map_store _) (try_submit-store r p.msisdn p.raw_body))

  -- A submit of an engine that drainSubmitRetries takes up is not lost: either an SMSC accepts it, and
  -- its message id leads to the submit's and to the engine; or it is in the retry queue again, if there
  -- is a store, as an attempt that is within the limit; or the engine is sent a failure receipt for it.
  pub resubmit_lossless :
      (r : Router Db) (p : PendingSubmit)
      → key_eq p.conn_id rest_api ≡ false
      → Correlated r p (resubmit kv world fnv32a format cfg r p)
        ⊎ (Requeued r p (resubmit kv world fnv32a format cfg r p)
            ⊎ Failed
                (try_submit kv world fnv32a format cfg r p.msisdn p.raw_body).0
                p
                (resubmit kv world fnv32a format cfg r p))
  unfolding resubmit
  resubmit_lossless r p h =
      elim (Option-cases (try_submit kv world fnv32a format cfg r p.msisdn p.raw_body).1) [
        | inl e ↦
            rw (e, resubmit)
              (elim (retry_or_fail_lem (tried r p) p h) [
                | inl q ↦ inr (
                    inl (
                      Requeued-try_submit r p
                        (enqueue_submit_retry_or_fail kv world fnv32a format cfg (tried r p)
                          p.gw_msg_id p.conn_id p.msisdn p.source_addr p.raw_body p.retry_count)
                        q))
                | inr f ↦ inr (inr f)
              ])
        | inr (id, e) ↦
            rw (e, resubmit)
              (inl (
                id,
                try_submit-Accepted r p id e,
                _,
                keep_accepted-correlation (tried r p) _ id p.conn_id p.gw_msg_id p.msisdn
                    p.source_addr p.raw_body,
                refl,
                refl,
              ))
      ]
