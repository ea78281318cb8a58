-- ===== src/Gateway/Router/Delivery/Outcomes.antt =====
-- What becomes of a delivery in deliverWithGrace and drainRetries of gateway/router.go.
use go_smsc.Prelude.{
  ℕ, ◌+◌, ◌≡◌, refl, arith, Bool, true, false, not, ◌||◌, List, [], ◌∷◌, Bool-cases, inl, inr, ◌⊎◌,
}
use go_smsc.Prelude.Keys.{Key, key_eq}
use go_smsc.Smpp.Parsers.{is_dlr}
use go_smsc.Gateway.Store.{Value, PendingDeliver, enqueue_retry}
use go_smsc.Gateway.Store.Database.{Kv}
use go_smsc.Gateway.Router.{Router, World, Settings, Event, deliver_sm, map_store}
use go_smsc.Gateway.Router.Delivery.{
  within_grace, deliver_to_conn, enqueue, deliver_with_grace, redeliver,
}

module _ {Db S : Type 0} (kv : Kv Db Value) (world : World S) (cfg : Settings) where
  -- An engine has acknowledged the body, last of all that happened, and the store is as before.
  abbrev pub Acknowledged : Router Db → List ℕ → Router Db → Type 0
  Acknowledged r body r' =
      (conn_id : Key) × (before : List Event) × (r'.events ≡ deliver_sm conn_id body true ∷ before)
      × (r'.store ≡ r.store)

  -- The retry queue has the delivery, under some identifier.
  abbrev pub Queued : Router Db → PendingDeliver → Router Db → Type 0
  Queued r p r' = (id : Key) × (r'.store ≡ map_store (λ s. enqueue_retry kv s id p) r.store)

  -- deliverWithGrace says that it delivered where some engine acknowledged the body, and where it says
  -- that it did not, the body is in the retry queue for the connection, if there is a store.
  pub deliver_with_grace_lossless :
      (r : Router Db) (conn_id : Key) (body : List ℕ) (msisdn : Key) (esm_class : ℕ)
      (source_addr dest_addr id : Key) (dlr : Bool)
      → (((deliver_with_grace kv world cfg r conn_id body msisdn esm_class source_addr dest_addr id
              dlr).1
            ≡ true)
          × Acknowledged r body
              (deliver_with_grace kv world cfg r conn_id body msisdn esm_class source_addr dest_addr
                id dlr).0)
        ⊎ (((deliver_with_grace kv world cfg r conn_id body msisdn esm_class source_addr dest_addr
                id dlr).1
              ≡ false)
            × ((time : ℕ) × Queued r
                  (record {
                    target_conn_id = conn_id;
                    msisdn = msisdn;
                    pdu_body = body;
                    esm_class = esm_class;
                    source_addr = source_addr;
                    dest_addr = dest_addr;
                    enqueued_at = time;
                  })
                  (deliver_with_grace kv world cfg r conn_id body msisdn esm_class source_addr
                    dest_addr id dlr).0))
  unfolding deliver_with_grace deliver_to_conn enqueue
  deliver_with_grace_lossless r conn_id body msisdn esm_class source_addr dest_addr id dlr =
      let robin : Key = world.round_robin_conn_id (r.clock + 1 + 1) in
      elim (Bool-cases (world.delivers_to r.clock conn_id body)) [
        | inl a ↦ rw a (inl (refl, (conn_id, r.events, refl, refl)))
        | inr a ↦
            elim (Bool-cases (
              within_grace cfg.reconnect_grace (world.now (r.clock + 1))
                (world.disconnected_at (r.clock + 1) conn_id))) [
                  | inl w ↦ rw (a, w) (inr (refl, (_, (id, refl))))
                  | inr w ↦ elim (Bool-cases dlr) [
                    | inl d ↦ rw (a, w, d) (inr (refl, (_, (id, refl))))
                    | inr d ↦ elim (Bool-cases (key_eq robin [])) [
                      | inl k ↦ rw (a, w, d, k) (inr (refl, (_, (id, refl))))
                      | inr k ↦
                          elim (Bool-cases (world.delivers_to (r.clock + 1 + 1 + 1) robin body)) [
                            | inl b ↦ rw (a, w, d, k, b) (inl (refl, (robin, _, refl, refl)))
                            | inr b ↦ rw (a, w, d, k, b) (inr (refl, (_, (id, refl))))
                          ]
                    ]
                  ]
                ]
      ]

  -- A delivery that a round of drainRetries takes up is acknowledged by an engine or goes back to the
  -- retry queue as it was, if there is a store.
  pub redeliver_lossless :
      (r : Router Db) (p : PendingDeliver)
      → Acknowledged r p.pdu_body (redeliver kv world cfg r p)
        ⊎ Queued r p (redeliver kv world cfg r p)
  unfolding redeliver deliver_to_conn enqueue
  redeliver_lossless r p =
      let robin : Key = world.round_robin_conn_id (r.clock + 1) in
      elim (Bool-cases
        (key_eq p.target_conn_id [] || not (world.connected r.clock p.target_conn_id))) [
          | inl g ↦ elim (Bool-cases (is_dlr p.esm_class)) [
            | inl d ↦ rw (g, d) (inr (_, refl))
            | inr d ↦ elim (Bool-cases (key_eq robin [])) [
              | inl c ↦ rw (g, d, c) (inr (_, refl))
              | inr c ↦ elim (Bool-cases (world.delivers_to (r.clock + 1 + 1) robin p.pdu_body)) [
                | inl a ↦ rw (g, d, c, a) (inl (robin, _, refl, refl))
                | inr a ↦ rw (g, d, c, a) (inr (_, refl))
              ]
            ]
          ]
          | inr g ↦ elim (Bool-cases (key_eq p.target_conn_id [])) [
            | inl c ↦ absurd (ground (arith, g, c))
            | inr c ↦
                elim (Bool-cases
                  (world.delivers_to (r.clock + 1 + 1) p.target_conn_id p.pdu_body)) [
                    | inl a ↦ rw (g, c, a) (inl (p.target_conn_id, _, refl, refl))
                    | inr a ↦ rw (g, c, a) (inr (_, refl))
                  ]
          ]
        ]
