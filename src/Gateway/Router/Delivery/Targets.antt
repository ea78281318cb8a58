-- ===== src/Gateway/Router/Delivery/Targets.antt =====
-- To which engines deliverWithGrace and drainRetries of gateway/router.go deliver.
use go_smsc.Prelude.{
  ℕ, ◌+◌, ◌≡◌, refl, ◌∙◌, ap, sym, arith, Bool, true, false, not, ◌||◌, List, [], ◌∷◌, ◌++◌, some,
  if◌then◌else◌, Bool-cases, inl, inr, ◌⊎◌, append_assoc, All, All-append,
}
use go_smsc.Prelude.Keys.{Key, key_eq}
use go_smsc.Smpp.Parsers.{is_dlr}
use go_smsc.Gateway.Store.{Value, MessageStore, PendingDeliver, enqueue_retry, drain_retries}
use go_smsc.Gateway.Store.Database.{Kv}
use go_smsc.Gateway.Router.{Router, World, Settings, Event, deliver_sm, asked, map_store}
use go_smsc.Gateway.Router.Delivery.{
  within_grace, deliver_to_conn, enqueue, deliver_with_grace, redeliver, redeliver_all,
  retry_delivers,
}
use mathlib.Core.List.{Memᴰ}
use mathlib.Core.List.Memᴰ.{head, tail}

-- An attempt to deliver one of the pending deliveries, at its own target when it is a DLR.
abbrev pub Justified : List PendingDeliver → Event → Type 0
Justified pending e =
    (p : PendingDeliver) × (conn_id : Key) × (acked : Bool) × Memᴰ p pending
    × (e ≡ deliver_sm conn_id p.pdu_body acked)
    × (is_dlr p.esm_class ≡ false ⊎ conn_id ≡ p.target_conn_id)

-- The events of a run are those from before and justified ones.
abbrev pub Adds : List PendingDeliver → List Event → List Event → Type 0
Adds pending before after =
    (new : List Event) × (after ≡ new ++ before) × All (Justified pending) new

module _ {Db S : Type 0} (kv : Kv Db Value) (world : World S) (cfg : Settings) where
  -- A DLR is tried once, at the engine that it is for and at no other, is taken as delivered when
  -- that engine acknowledges it, and otherwise goes to the retry queue for that engine.
  pub deliver_with_grace-dlr :
      (r : Router Db) (conn_id : Key) (body : List ℕ) (msisdn : Key) (esm_class : ℕ)
      (source_addr dest_addr id : Key)
      → ((deliver_with_grace kv world cfg r conn_id body msisdn esm_class source_addr dest_addr id
            true).1
          ≡ world.delivers_to r.clock conn_id body)
        × ((deliver_with_grace kv world cfg r conn_id body msisdn esm_class source_addr dest_addr id
              true).0.events
            ≡ deliver_sm conn_id body (world.delivers_to r.clock conn_id body) ∷ r.events)
        × ((deliver_with_grace kv world cfg r conn_id body msisdn esm_class source_addr dest_addr id
              true).0.store
            ≡ (if world.delivers_to r.clock conn_id body
                then r.store
                else map_store
                    (λ s. enqueue_retry kv s id (record {
                      target_conn_id = conn_id;
                      msisdn = msisdn;
                      pdu_body = body;
                      esm_class = esm_class;
                      source_addr = source_addr;
                      dest_addr = dest_addr;
                      enqueued_at = world.now (r.clock + 1 + 1);
                    }))
                    r.store))
  unfolding deliver_with_grace deliver_to_conn enqueue
  deliver_with_grace-dlr r conn_id body msisdn esm_class source_addr dest_addr id =
      elim (Bool-cases (world.delivers_to r.clock conn_id body)) [
        | inl e ↦ rw e (refl, refl, refl)
        | inr e ↦
            elim (Bool-cases (
              within_grace cfg.reconnect_grace (world.now (r.clock + 1))
                (world.disconnected_at (r.clock + 1) conn_id))) [
                  | inl c ↦ rw (e, c) (refl, refl, refl)
                  | inr c ↦ rw (e, c) (refl, refl, refl)
                ]
      ]

  All-self :
      (xs all : List PendingDeliver)
      → ((p : PendingDeliver) → Memᴰ p xs → Memᴰ p all)
      → All (λ p. Memᴰ p all) xs
  All-self [] all h = tt
  All-self (x ∷ xs) all h = (h x (head refl), All-self xs all (λ p m. h p (tail m)))

  redeliver-Adds :
      (r : Router Db) (p : PendingDeliver) (pending : List PendingDeliver)
      → Memᴰ p pending
      → Adds pending r.events (redeliver kv world cfg r p).events
  unfolding redeliver deliver_to_conn enqueue
  redeliver-Adds r p pending m =
      let robin : Key = world.round_robin_conn_id (r.clock + 1) in
      elim (Bool-cases
        (key_eq p.target_conn_id [] || not (world.connected r.clock p.target_conn_id))) [
          | inl g ↦ elim (Bool-cases (is_dlr p.esm_class)) [
            | inl d ↦ rw (g, d) ([], refl, tt)
            | inr d ↦ elim (Bool-cases (key_eq robin [])) [
              | inl c ↦ rw (g, d, c) ([], refl, tt)
              | inr c ↦ elim (Bool-cases (world.delivers_to (r.clock + 1 + 1) robin p.pdu_body)) [
                | inl a ↦
                    rw (g, d, c, a)
                      (
                        deliver_sm robin p.pdu_body true ∷ [],
                        refl,
                        ((p, robin, true, m, refl, inl d), tt),
                      )
                | inr a ↦
                    rw (g, d, c, a)
                      (
                        deliver_sm robin p.pdu_body false ∷ [],
                        refl,
                        ((p, robin, false, m, refl, inl d), tt),
                      )
              ]
            ]
          ]
          | inr g ↦ elim (Bool-cases (key_eq p.target_conn_id [])) [
            | inl c ↦ absurd (ground (arith, g, c))
            | inr c ↦
                elim (Bool-cases
                  (world.delivers_to (r.clock + 1 + 1) p.target_conn_id p.pdu_body)) [
                    | inl a ↦
                        rw (g, c, a)
                          (
                            deliver_sm p.target_conn_id p.pdu_body true ∷ [],
                            refl,
                            ((p, p.target_conn_id, true, m, refl, inr refl), tt),
                          )
                    | inr a ↦
                        rw (g, c, a)
                          (
                            deliver_sm p.target_conn_id p.pdu_body false ∷ [],
                            refl,
                            ((p, p.target_conn_id, false, m, refl, inr refl), tt),
                          )
                  ]
          ]
        ]

  redeliver_all-Adds :
      (r : Router Db) (pending all : List PendingDeliver)
      → All (λ p. Memᴰ p all) pending
      → Adds all r.events (redeliver_all kv world cfg r pending).events
  unfolding redeliver_all
  redeliver_all-Adds r [] all h = ([], refl, tt)
  redeliver_all-Adds r (p ∷ pending) all h =
      let (first, e, j) = redeliver-Adds r p all h.0 in
      let (rest, f, k) = redeliver_all-Adds (redeliver kv world cfg r p) pending all h.1 in
      (
        rest ++ first,
        f ∙ ap (λ events. rest ++ events) e ∙ sym (append_assoc rest first r.events),
        All-append (Justified all) rest first k j,
      )

  -- In a router with a store, a round of drainRetries delivers only what the store returned to it,
  -- and a DLR only to the engine that it is for.
  pub retry_delivers-Adds :
      (r : Router Db) (s : MessageStore Db) (max_age : ℕ)
      → r.store ≡ some s
      → Adds
          (drain_retries kv s (world.now r.clock) max_age cfg.retry_drain_limit).1
          r.events
          (retry_delivers kv world cfg r max_age).events
  unfolding retry_delivers
  retry_delivers-Adds r s max_age h =
      let drained : _ = drain_retries kv s (world.now r.clock) max_age cfg.retry_drain_limit in
      rw h (
        redeliver_all-Adds (asked (record r { store = some drained.0 })) drained.1 drained.1
          (All-self drained.1 drained.1 (λ p m. m)))
