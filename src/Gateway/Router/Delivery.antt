-- ===== src/Gateway/Router/Delivery.antt =====
-- deliverWithGrace and drainRetries of gateway/router.go: delivery to an engine, or into the retry queue.
pub mod Targets
pub mod Outcomes
use go_smsc.Prelude.{
  ℕ, zero, suc, ◌+◌, ◌-◌, Bool, true, false, not, ◌&&◌, ◌||◌, List, [], ◌∷◌, ◌++◌, Option, none,
  some, leb, ltb, ◌==◌, if◌then◌else◌, length,
}
use go_smsc.Prelude.Int.{ℤ, pos, negsuc}
use go_smsc.Prelude.Keys.{Key, key_eq}
use go_smsc.Smpp.Parsers.{is_dlr}
use go_smsc.Gateway.Decimal.{decimal}
use go_smsc.Gateway.Store.{Value, MessageStore, PendingDeliver, enqueue_retry, drain_retries}
use go_smsc.Gateway.Store.Database.{Kv}
use go_smsc.Gateway.Router.{
  Router, World, Settings, Event, deliver_sm, map_store, with_store, asked, happened,
}

-- `wasConnected && time.Since(disconnectTime) < r.reconnectGrace`
unfoldable pub within_grace : ℕ → ℕ → Option ℕ → Bool
within_grace grace now none = false
within_grace grace now (some since) = ltb (now - since) grace

-- "retry-%d"
abbrev pub retry_id : ℕ → Key
retry_id time = 114 ∷ 101 ∷ 116 ∷ 114 ∷ 121 ∷ 45 ∷ decimal time

module _ {Db S : Type 0} (kv : Kv Db Value) (world : World S) where
  -- DeliverToConn
  unfoldable pub deliver_to_conn : Router Db → Key → List ℕ → Router Db × Bool
  deliver_to_conn r conn_id body =
      let acked = world.delivers_to r.clock conn_id body in
      (happened r (deliver_sm conn_id body acked), acked)

  unfoldable pub enqueue : Router Db → Key → PendingDeliver → Router Db
  enqueue r id pending = with_store r (λ s. enqueue_retry kv s id pending)

  module _ (cfg : Settings) where
    unfoldable pub deliver_with_grace :
        Router Db → Key → List ℕ → Key → ℕ → Key → Key → Key → Bool → Router Db × Bool
    unfolding deliver_to_conn enqueue within_grace
    deliver_with_grace r conn_id body msisdn esm_class source_addr dest_addr id dlr =
        let buffer : Router Db → Router Db = λ r'. enqueue r' id (record {
          target_conn_id = conn_id;
          msisdn = msisdn;
          pdu_body = body;
          esm_class = esm_class;
          source_addr = source_addr;
          dest_addr = dest_addr;
          enqueued_at = world.now r'.clock;
        }) in
        let (tried, acked) = deliver_to_conn r conn_id body in
        let within =
          within_grace cfg.reconnect_grace (world.now tried.clock)
            (world.disconnected_at tried.clock conn_id) in
        let checked = asked tried in
        let fallback_id = world.round_robin_conn_id checked.clock in
        let (again, acked_again) = deliver_to_conn (asked checked) fallback_id body in
        if acked
        then (tried, true)
        else if within
        then (buffer checked, false)
        else if dlr
        then (buffer checked, false)
        else if key_eq fallback_id []
        then (buffer (asked checked), false)
        else if acked_again
        then (again, true)
        else (buffer again, false)

    -- The body of drainRetries' loop.
    unfoldable pub redeliver : Router Db → PendingDeliver → Router Db
    unfolding deliver_to_conn enqueue
    redeliver r p =
        let again : Router Db → Router Db = λ r'. enqueue r' (retry_id (world.now r'.clock)) p in
        let gone = key_eq p.target_conn_id [] || not (world.connected r.clock p.target_conn_id) in
        let checked = asked r in
        let chosen = asked checked in
        let conn_id = if gone then world.round_robin_conn_id checked.clock else p.target_conn_id in
        let (tried, acked) = deliver_to_conn chosen conn_id p.pdu_body in
        if gone && is_dlr p.esm_class
        then again checked
        else if key_eq conn_id []
        then again chosen
        else if acked
        then tried
        else again tried

    unfoldable pub redeliver_all : Router Db → List PendingDeliver → Router Db
    unfolding redeliver
    redeliver_all r [] = r
    redeliver_all r (p ∷ pending) = redeliver_all (redeliver r p) pending

    -- drainRetries
    unfoldable pub retry_delivers : Router Db → ℕ → Router Db
    unfolding redeliver_all
    retry_delivers r max_age = elim r.store [
      | none ↦ r
      | some s ↦
          let (s', pending) =
            drain_retries kv s (world.now r.clock) max_age cfg.retry_drain_limit in
          redeliver_all (asked (record r { store = some s' })) pending
    ]
