-- ===== src/Gateway/Router.antt =====
-- The state of the Router of gateway/router.go, and what it meets: the engines, the SMSCs and the clock.
-- `World` gives their answers. Its first argument counts the router's questions so far, so that the
-- answers can change in any way; every answer of the network that does something is an event of the
-- state, the last one first. Metrics and logging are left out.
pub mod Delivery
pub mod Callbacks
pub mod Forwarding
pub mod Inbound
pub mod Submit
pub mod Examples
use go_smsc.Prelude.{
  ℕ, zero, suc, ◌+◌, ◌-◌, Bool, true, false, not, ◌&&◌, ◌||◌, List, [], ◌∷◌, ◌++◌, Option, none,
  some, leb, ltb, ◌==◌, if◌then◌else◌, length,
}
use go_smsc.Prelude.Int.{ℤ, pos, negsuc}
use go_smsc.Prelude.Keys.{Key, key_eq}
use go_smsc.Gateway.ShardMap.{ShardMap}
use go_smsc.Gateway.Routes.{MoRoute}
use go_smsc.Gateway.Store.{Value, MessageStore}

pub record Correlation : Type 0 where
  pub gw_msg_id : Key
  pub north_conn_id : Key
  pub msisdn : Key
  pub submitted_at : ℕ

-- The connection of a task is known by its identifier; `none` is a nil connection.
pub record ForwardTask : Type 0 where
  pub conn : Option Key
  pub gw_msg_id : Key
  pub dest_addr : Key
  pub source_addr : Key
  pub raw_body : List ℕ

-- What SubmitRaw gives: an error, a response with an error, or the message id of the SMSC.
pub data Answer : Type 0 where
  failed rejected : Answer
  accepted : Key → Answer

pub data Event : Type 0 where
  -- DeliverToConn of a body, and whether the engine acknowledged it
  deliver_sm : Key → List ℕ → Bool → Event
  -- SubmitRaw of a body, and the answer
  submit_raw : List ℕ → Answer → Event
  -- SendSubmitSMResp with StatusOK: the connection, the sequence number and the message id
  submit_sm_resp : Key → ℕ → Key → Event
  -- InFlightAdd
  in_flight : Key → ℤ → Event
  -- postCallback of a DLR: the URL, the message id and the status; whether it was taken
  dlr_callback : Key → Key → Key → Bool → Event
  -- postCallback of an MO: the URL, the addresses and the text
  mo_callback : Key → Key → Key → List ℕ → Event

pub record World (S : Type 0) : Type 0 where
  pub now : ℕ → ℕ
  -- DeliverToConn, GetConnection, DisconnectedAt and RoundRobinConnID of the server
  pub delivers_to : ℕ → Key → List ℕ → Bool
  pub connected : ℕ → Key → Bool
  pub disconnected_at : ℕ → Key → Option ℕ
  pub round_robin_conn_id : ℕ → Key
  -- The submitter that the MT routes choose for an address, and the one to fall back to
  pub routed : ℕ → Key → Option S
  pub southbound : Option S
  pub submits : ℕ → S → List ℕ → Answer
  pub takes_callback : ℕ → Key → Bool

-- A limit that is not positive is none.
pub record Settings : Type 0 where
  pub reconnect_grace : ℕ
  pub max_submit_retries : ℤ
  pub retry_drain_limit : ℤ
  pub submit_retry_drain_limit : ℤ
  pub forward_queue_size : ℕ
  pub mo_routes : List MoRoute

pub record Router (Db : Type 0) : Type 0 where
  pub store : Option (MessageStore Db)
  pub smsc_correlation : ShardMap Correlation
  pub gw_correlation : ShardMap Correlation
  pub msisdn_affinity : ShardMap Key
  pub forward_ch : List ForwardTask
  pub msg_seq : ℕ
  pub clock : ℕ
  pub events : List Event

-- "rest-api", the connection identifier of REST submissions
abbrev pub rest_api : Key
rest_api = 114 ∷ 101 ∷ 115 ∷ 116 ∷ 45 ∷ 97 ∷ 112 ∷ 105 ∷ []

module _ {Db : Type 0} where
  -- `if r.store != nil { ... }`
  unfoldable pub map_store :
      (MessageStore Db → MessageStore Db) → Option (MessageStore Db) → Option (MessageStore Db)
  map_store f none = none
  map_store f (some s) = some (f s)

  abbrev pub with_store : Router Db → (MessageStore Db → MessageStore Db) → Router Db
  with_store r f = record r { store = map_store f r.store }

  abbrev pub asked : Router Db → Router Db
  asked r = record r { clock = r.clock + 1 }

  abbrev pub happened : Router Db → Event → Router Db
  happened r e = record r { clock = r.clock + 1; events = e ∷ r.events }

  -- A store is there.
  unfoldable pub has_store : Router Db → Bool
  has_store r = elim r.store [ none ↦ false | some s ↦ true ]
