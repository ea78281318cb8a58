-- ===== src/Gateway/Router/Inbound/Reports.antt =====
-- Where the DLRs of handleDLR of gateway/router.go go, and what remains of the message afterwards.
use go_smsc.Prelude.{
  ℕ, ◌+◌, ◌≡◌, refl, ◌∙◌, ap, Bool, true, false, List, [], ◌∷◌, ◌++◌, some, if◌then◌else◌,
  Bool-cases, Option-cases, inl, inr, All,
}
use go_smsc.Prelude.Keys.{Key, key_eq}
use go_smsc.Smpp.Receipts.{DlrReceipt, parse_dlr_receipt, translate_dlr_message_id}
use go_smsc.Gateway.Bodies.{build_deliver_sm_body}
use go_smsc.Gateway.ShardMap.{delete}
use go_smsc.Gateway.Store.{Value}
use go_smsc.Gateway.Store.Database.{Kv}
use go_smsc.Gateway.Store.Records.{MessageLogEntry}
use go_smsc.Gateway.Router.{
  Router, World, Settings, Correlation, Event, deliver_sm, submit_raw, submit_sm_resp, in_flight,
  dlr_callback, mo_callback, rest_api,
}
use go_smsc.Gateway.Router.Delivery.{deliver_with_grace, deliver_to_conn, enqueue, within_grace}
use go_smsc.Gateway.Router.Delivery.Targets.{deliver_with_grace-dlr}
use go_smsc.Gateway.Router.Callbacks.{deliver_dlr_callback, find_callback, report, delivrd}
use go_smsc.Gateway.Router.Forwarding.{log_update, failed_text}
use go_smsc.Gateway.Router.Inbound.{find_correlation, forget, route_dlr, handle_dlr, delivered_text}

-- Whether an event is the report of a DLR to a callback.
unfoldable pub is_callback : Event → Bool
is_callback (dlr_callback url gw_msg_id status taken) = true
is_callback (deliver_sm conn_id body acked) = false
is_callback (submit_raw body answer) = false
is_callback (submit_sm_resp conn_id seq_num id) = false
is_callback (in_flight conn_id delta) = false
is_callback (mo_callback url source_addr dest_addr text) = false

abbrev pub OnlyCallbacks : List Event → Type 0
OnlyCallbacks = All (λ e. is_callback e ≡ true)

module _ {Db S : Type 0} (kv : Kv Db Value) (world : World S) where
  -- What a callback leaves alone, and the events that it adds.
  callback_keeps :
      (r : Router Db) (gw_msg_id status : Key)
      → ((deliver_dlr_callback kv world r gw_msg_id status).smsc_correlation ≡ r.smsc_correlation)
        × ((deliver_dlr_callback kv world r gw_msg_id status).gw_correlation ≡ r.gw_correlation)
        × ((calls : List Event) × OnlyCallbacks calls
            × ((deliver_dlr_callback kv world r gw_msg_id status).events ≡ calls ++ r.events))
  unfolding report deliver_dlr_callback is_callback
  callback_keeps r gw_msg_id status = elim (Option-cases (find_callback kv world r gw_msg_id)) [
    | inl e ↦ rw (e, deliver_dlr_callback) (refl, refl, ([], tt, refl))
    | inr (cb, e) ↦ rw (e, deliver_dlr_callback) (refl, refl, (_ ∷ [], (refl, tt), refl))
  ]

  grace_keeps :
      (cfg : Settings) (r : Router Db) (conn_id : Key) (body : List ℕ) (msisdn : Key)
      (esm_class : ℕ) (source_addr dest_addr id : Key)
      → ((deliver_with_grace kv world cfg r conn_id body msisdn esm_class source_addr dest_addr id
            true).0.smsc_correlation
          ≡ r.smsc_correlation)
        × ((deliver_with_grace kv world cfg r conn_id body msisdn esm_class source_addr dest_addr id
              true).0.gw_correlation
            ≡ r.gw_correlation)
  unfolding deliver_with_grace deliver_to_conn enqueue
  grace_keeps cfg r conn_id body msisdn esm_class source_addr dest_addr id =
      elim (Bool-cases (world.delivers_to r.clock conn_id body)) [
        | inl e ↦ rw e (refl, refl)
        | inr e ↦
            elim (Bool-cases (
              within_grace cfg.reconnect_grace (world.now (r.clock + 1))
                (world.disconnected_at (r.clock + 1) conn_id))) [
                  | inl c ↦ rw (e, c) (refl, refl)
                  | inr c ↦ rw (e, c) (refl, refl)
                ]
      ]

  module _ (fnv32a : Key → ℕ) (format : ℕ → Key) (cfg : Settings) where
    -- The receipt with the gateway's message id, in a deliver_sm.
    abbrev pub translated : Key → Key → ℕ → List ℕ → DlrReceipt → Correlation → List ℕ
    translated source_addr dest_addr esm_class payload receipt corr =
        build_deliver_sm_body source_addr dest_addr esm_class
          (translate_dlr_message_id payload receipt.message_id corr.gw_msg_id)

    -- A DLR for a known message of an engine is sent to that engine and to no other, with the gateway's
    -- message id in place of the SMSC's. When the engine acknowledges it, the message's correlations
    -- are deleted; otherwise they stay as they are.
    pub handle_dlr-translated :
        (r : Router Db) (source_addr dest_addr : Key) (esm_class : ℕ) (payload : List ℕ)
        (receipt : DlrReceipt) (corr : Correlation)
        → parse_dlr_receipt payload ≡ some receipt
        → find_correlation kv world fnv32a format cfg r receipt.message_id ≡ some corr
        → key_eq corr.north_conn_id rest_api ≡ false
        → (acked : Bool) × (calls : List Event) × OnlyCallbacks calls
          × ((handle_dlr kv world fnv32a format cfg r source_addr dest_addr esm_class
                payload).events
              ≡ calls
                ++ deliver_sm corr.north_conn_id
                    (translated source_addr dest_addr esm_class payload receipt corr)
                    acked
                  ∷ r.events)
          × ((handle_dlr kv world fnv32a format cfg r source_addr dest_addr esm_class
                payload).smsc_correlation
              ≡ (if acked
                  then delete fnv32a r.smsc_correlation receipt.message_id
                  else r.smsc_correlation))
          × ((handle_dlr kv world fnv32a format cfg r source_addr dest_addr esm_class
                payload).gw_correlation
              ≡ (if acked then delete fnv32a r.gw_correlation corr.gw_msg_id else r.gw_correlation))
    unfolding route_dlr log_update forget handle_dlr translate_dlr_message_id
    handle_dlr-translated r source_addr dest_addr esm_class payload receipt corr p f h =
        let updater : MessageLogEntry → MessageLogEntry = λ e. record e {
          status = if key_eq receipt.status delivrd then delivered_text else failed_text;
          dlr_status = receipt.status;
        } in
        let logged : Router Db = log_update kv world fnv32a format cfg r corr.gw_msg_id updater in
        let body : List ℕ = translated source_addr dest_addr esm_class payload receipt corr in
        let sent : _ =
          deliver_with_grace kv world cfg logged corr.north_conn_id body corr.msisdn esm_class
            source_addr dest_addr corr.gw_msg_id true in
        let (outcome, events, store) =
          deliver_with_grace-dlr kv world cfg logged corr.north_conn_id body corr.msisdn esm_class
            source_addr dest_addr corr.gw_msg_id in
        let (smsc, gw) =
          grace_keeps cfg logged corr.north_conn_id body corr.msisdn esm_class source_addr dest_addr
            corr.gw_msg_id in
        let (smsc', gw', (calls, only, events')) =
          callback_keeps
            (forget kv world fnv32a format cfg sent.0 receipt.message_id corr.gw_msg_id)
            corr.gw_msg_id receipt.status in
        elim (Bool-cases (world.delivers_to r.clock corr.north_conn_id body)) [
          | inl a ↦
              rw (p, f, handle_dlr, h, outcome ∙ a, route_dlr)
                (
                  true,
                  calls,
                  only,
                  events'
                      ∙ ap (λ es. calls ++ es)
                          (events ∙ ap (λ b. deliver_sm corr.north_conn_id body b ∷ r.events) a),
                  smsc' ∙ ap (λ m. delete fnv32a m receipt.message_id) smsc,
                  gw' ∙ ap (λ m. delete fnv32a m corr.gw_msg_id) gw,
                )
          | inr a ↦
              rw (p, f, handle_dlr, h, outcome ∙ a, route_dlr)
                (
                  false,
                  [],
                  tt,
                  events ∙ ap (λ b. deliver_sm corr.north_conn_id body b ∷ r.events) a,
                  smsc,
                  gw,
                )
        ]
