-- ===== src/Gateway/Router/Inbound.antt =====
-- HandleDeliver, handleDLR and handleMO of gateway/router.go: what comes back from the SMSCs.
pub mod Reports
pub mod RoundTrip
use go_smsc.Prelude.{
  ℕ, ◌+◌, Bool, true, false, not, ◌&&◌, List, [], ◌∷◌, ◌++◌, Option, none, some, if◌then◌else◌,
}
use go_smsc.Prelude.Keys.{Key, key_eq}
use go_smsc.Smpp.Parsers.{is_dlr}
use go_smsc.Smpp.Receipts.{DlrReceipt, parse_dlr_receipt, translate_dlr_message_id}
use go_smsc.Gateway.Bodies.{build_deliver_sm_body}
use go_smsc.Gateway.Decimal.{decimal}
use go_smsc.Gateway.ShardMap.{get, delete}
use go_smsc.Gateway.Routes.{MoTarget, mo_resolve}
use go_smsc.Gateway.Store.{
  Value, MessageStore, SubmitRecord, PendingDeliver, get_submit, delete_submit,
}
use go_smsc.Gateway.Store.Database.{Kv}
use go_smsc.Gateway.Store.Records.{MessageStatus}
use go_smsc.Gateway.Store.Status.{set_message_status}
use go_smsc.Gateway.Router.{
  Router, World, Settings, Correlation, map_store, with_store, asked, happened, rest_api,
}
use go_smsc.Gateway.Router.Delivery.{deliver_with_grace, enqueue}
use go_smsc.Gateway.Router.Callbacks.{deliver_dlr_callback, deliver_mo_callback, delivrd}
use go_smsc.Gateway.Router.Forwarding.{log_update, failed_text}

-- "delivered", "http" and "smpp"
abbrev pub delivered_text : Key
delivered_text = 100 ∷ 101 ∷ 108 ∷ 105 ∷ 118 ∷ 101 ∷ 114 ∷ 101 ∷ 100 ∷ []

abbrev pub http : Key
http = 104 ∷ 116 ∷ 116 ∷ 112 ∷ []

abbrev pub smpp : Key
smpp = 115 ∷ 109 ∷ 112 ∷ 112 ∷ []

-- "mo-%d"
abbrev pub mo_id : ℕ → Key
mo_id time = 109 ∷ 111 ∷ 45 ∷ decimal time

module _ {Db S : Type 0} (kv : Kv Db Value) (world : World S) (fnv32a : Key → ℕ) (format : ℕ → Key)
    (cfg : Settings) where
  -- The correlation of an SMSC message id: from memory, or from the store after a restart.
  unfoldable pub find_correlation : Router Db → Key → Option Correlation
  unfolding get_submit
  find_correlation r smsc_msg_id = elim (get fnv32a r.smsc_correlation smsc_msg_id) [
    | some corr ↦ some corr
    | none ↦ elim r.store [
      | none ↦ none
      | some s ↦ elim (get_submit kv s smsc_msg_id) [
        | none ↦ none
        | some found ↦
            -- without SubmittedAt
            some (record {
              gw_msg_id = found.gw_msg_id;
              north_conn_id = found.north_conn_id;
              msisdn = found.msisdn;
              submitted_at = 0;
            })
      ]
    ]
  ]

  -- The correlations and the record of a message whose DLR is delivered go.
  unfoldable pub forget : Router Db → Key → Key → Router Db
  unfolding delete_submit
  forget r smsc_msg_id gw_msg_id =
      with_store
        (record r {
          smsc_correlation = delete fnv32a r.smsc_correlation smsc_msg_id;
          gw_correlation = delete fnv32a r.gw_correlation gw_msg_id;
        })
        (λ s. delete_submit kv s smsc_msg_id)

  -- A DLR with its correlation.
  unfoldable pub route_dlr :
      Router Db → Key → Key → ℕ → List ℕ → DlrReceipt → Correlation → Router Db
  unfolding log_update forget
  route_dlr r source_addr dest_addr esm_class payload receipt corr =
      let body =
        build_deliver_sm_body source_addr dest_addr esm_class
          (translate_dlr_message_id payload receipt.message_id corr.gw_msg_id) in
      let logged = log_update kv world fnv32a format cfg r corr.gw_msg_id (λ e. record e {
        status = if key_eq receipt.status delivrd then delivered_text else failed_text;
        dlr_status = receipt.status;
      }) in
      let called = deliver_dlr_callback kv world logged corr.gw_msg_id receipt.status in
      let status : MessageStatus = record {
        gw_msg_id = corr.gw_msg_id;
        to = corr.msisdn;
        from = [];
        reference = [];
        status = delivered_text;
        dlr_status = receipt.status;
        smsc_msg_id = [];
        updated_at = world.now called.clock;
      } in
      let (sent, delivered) =
        deliver_with_grace kv world cfg logged corr.north_conn_id body corr.msisdn esm_class
          source_addr dest_addr corr.gw_msg_id true in
      if key_eq corr.north_conn_id rest_api
      then forget (with_store called (λ s. set_message_status kv s status)) receipt.message_id
          corr.gw_msg_id
      else if delivered
      then deliver_dlr_callback kv world (forget sent receipt.message_id corr.gw_msg_id)
          corr.gw_msg_id receipt.status
      else sent

  unfoldable pub handle_dlr : Router Db → Key → Key → ℕ → List ℕ → Router Db
  unfolding find_correlation route_dlr
  handle_dlr r source_addr dest_addr esm_class payload = elim (parse_dlr_receipt payload) [
    | none ↦ r
    | some receipt ↦ elim (find_correlation r receipt.message_id) [
      | none ↦ r
      | some corr ↦ route_dlr r source_addr dest_addr esm_class payload receipt corr
    ]
  ]

  -- The body to the connection.
  unfoldable pub deliver_mo : Router Db → Key → Key → Key → ℕ → List ℕ → Router Db
  deliver_mo r conn_id source_addr dest_addr esm_class payload =
      (deliver_with_grace kv world cfg (asked r) conn_id
        (build_deliver_sm_body source_addr dest_addr esm_class payload) source_addr esm_class
        source_addr dest_addr (mo_id (world.now r.clock)) false).0

  -- The connection that last sent to the number, else the next in turn.
  unfoldable pub deliver_by_affinity : Router Db → Key → Key → ℕ → List ℕ → Router Db
  unfolding deliver_mo enqueue
  deliver_by_affinity r source_addr dest_addr esm_class payload =
      let robin = world.round_robin_conn_id r.clock in
      let buffered = enqueue kv world (asked r) (mo_id (world.now (r.clock + 1))) (record {
        target_conn_id = [];
        msisdn = source_addr;
        pdu_body = build_deliver_sm_body source_addr dest_addr esm_class payload;
        esm_class = esm_class;
        source_addr = source_addr;
        dest_addr = dest_addr;
        enqueued_at = world.now (r.clock + 1);
      }) in
      elim (get fnv32a r.msisdn_affinity source_addr) [
        | some conn_id ↦ deliver_mo r conn_id source_addr dest_addr esm_class payload
        | none ↦
            if key_eq robin []
            then buffered
            else deliver_mo (asked r) robin source_addr dest_addr esm_class payload
      ]

  unfoldable pub handle_mo : Router Db → Key → Key → ℕ → List ℕ → Router Db
  unfolding deliver_mo deliver_by_affinity
  handle_mo r source_addr dest_addr esm_class payload =
      let otherwise = deliver_by_affinity r source_addr dest_addr esm_class payload in
      elim (mo_resolve cfg.mo_routes source_addr dest_addr) [
        | none ↦ otherwise
        | some target ↦
            if key_eq target.kind http
            then deliver_mo_callback kv world r target.callback_url source_addr dest_addr payload
            else if key_eq target.kind smpp && not (key_eq target.conn_id [])
            then deliver_mo r target.conn_id source_addr dest_addr esm_class payload
            else otherwise
      ]

  unfoldable pub handle_deliver : Router Db → Key → Key → ℕ → List ℕ → Router Db
  unfolding handle_dlr handle_mo
  handle_deliver r source_addr dest_addr esm_class payload =
      if is_dlr esm_class
      then handle_dlr r source_addr dest_addr esm_class payload
      else handle_mo r source_addr dest_addr esm_class payload
