-- ===== src/Smpp/Fields.antt =====
-- MandatoryBodyLen and its helpers of smpp/pdu_fields.go: how long the mandatory part of a PDU body
-- is, before the TLVs. `none` is the source's -1.
pub mod Layout
mod Walk
mod WalkSound
pub mod Boundary
use go_smsc.Prelude.{
  ℕ, ◌+◌, Bool, false, ◌||◌, List, [], ◌∷◌, Option, none, some, leb, ◌==◌, if◌then◌else◌, ◌>>=◌,
  length, get_elem?,
}
use go_smsc.Smpp.CString.{skip_c_string}
use go_smsc.Smpp.Commands.{
  cmd_bind_receiver, cmd_bind_receiver_resp, cmd_bind_transmitter, cmd_bind_transmitter_resp,
  cmd_query_sm, cmd_query_sm_resp, cmd_submit_sm, cmd_submit_sm_resp, cmd_deliver_sm,
  cmd_deliver_sm_resp, cmd_unbind, cmd_unbind_resp, cmd_replace_sm, cmd_replace_sm_resp,
  cmd_cancel_sm, cmd_cancel_sm_resp, cmd_bind_transceiver, cmd_bind_transceiver_resp,
  cmd_enquire_link, cmd_enquire_link_resp, cmd_submit_multi, cmd_submit_multi_resp,
  cmd_alert_notification, cmd_data_sm, cmd_data_sm_resp, cmd_broadcast_sm, cmd_broadcast_sm_resp,
  cmd_query_broadcast_sm, cmd_query_broadcast_sm_resp, cmd_cancel_broadcast_sm,
  cmd_cancel_broadcast_sm_resp, cmd_generic_nack,
}

-- `if offset+k > n { return -1 }; offset += k`
pub skip_octets : ℕ → List ℕ → ℕ → Option ℕ
skip_octets k body offset = if leb (offset + k) (length body) then some (offset + k) else none

-- `if offset >= n { return -1 }; smLen := int(body[offset]); offset++`, and the message behind it.
pub skip_message : List ℕ → ℕ → Option ℕ
skip_message body offset = do sm_len ← get_elem? body offset; skip_octets sm_len body (offset + 1)

mandatory_len_submit_deliver_sm : List ℕ → Option ℕ
mandatory_len_submit_deliver_sm body = do
  service_type ← skip_c_string body 0
  source_ton_npi ← skip_octets 2 body service_type
  source_addr ← skip_c_string body source_ton_npi
  dest_ton_npi ← skip_octets 2 body source_addr
  destination_addr ← skip_c_string body dest_ton_npi
  flags ← skip_octets 3 body destination_addr
  schedule_delivery_time ← skip_c_string body flags
  validity_period ← skip_c_string body schedule_delivery_time
  delivery ← skip_octets 4 body validity_period
  skip_message body delivery

mandatory_len_c_string_only : List ℕ → Option ℕ
mandatory_len_c_string_only body = if length body == 0 then some 0 else skip_c_string body 0

mandatory_len_bind : List ℕ → Option ℕ
mandatory_len_bind body = do
  system_id ← skip_c_string body 0
  password ← skip_c_string body system_id
  system_type ← skip_c_string body password
  version_ton_npi ← skip_octets 3 body system_type
  skip_c_string body version_ton_npi

mandatory_len_query_sm : List ℕ → Option ℕ
mandatory_len_query_sm body = do
  message_id ← skip_c_string body 0
  source_ton_npi ← skip_octets 2 body message_id
  skip_c_string body source_ton_npi

mandatory_len_query_sm_resp : List ℕ → Option ℕ
mandatory_len_query_sm_resp body = do
  message_id ← skip_c_string body 0
  final_date ← skip_c_string body message_id
  skip_octets 2 body final_date

mandatory_len_cancel_sm : List ℕ → Option ℕ
mandatory_len_cancel_sm body = do
  service_type ← skip_c_string body 0
  message_id ← skip_c_string body service_type
  source_ton_npi ← skip_octets 2 body message_id
  source_addr ← skip_c_string body source_ton_npi
  dest_ton_npi ← skip_octets 2 body source_addr
  skip_c_string body dest_ton_npi

mandatory_len_replace_sm : List ℕ → Option ℕ
mandatory_len_replace_sm body = do
  message_id ← skip_c_string body 0
  source_ton_npi ← skip_octets 2 body message_id
  source_addr ← skip_c_string body source_ton_npi
  schedule_delivery_time ← skip_c_string body source_addr
  validity_period ← skip_c_string body schedule_delivery_time
  delivery ← skip_octets 2 body validity_period
  skip_message body delivery

mandatory_len_data_sm : List ℕ → Option ℕ
mandatory_len_data_sm body = do
  service_type ← skip_c_string body 0
  source_ton_npi ← skip_octets 2 body service_type
  source_addr ← skip_c_string body source_ton_npi
  dest_ton_npi ← skip_octets 2 body source_addr
  destination_addr ← skip_c_string body dest_ton_npi
  skip_octets 3 body destination_addr

mandatory_len_alert_notification : List ℕ → Option ℕ
mandatory_len_alert_notification body = do
  source_ton_npi ← skip_octets 2 body 0
  source_addr ← skip_c_string body source_ton_npi
  esme_ton_npi ← skip_octets 2 body source_addr
  skip_c_string body esme_ton_npi

mandatory_len_broadcast_sm : List ℕ → Option ℕ
mandatory_len_broadcast_sm body = do
  service_type ← skip_c_string body 0
  source_ton_npi ← skip_octets 2 body service_type
  source_addr ← skip_c_string body source_ton_npi
  message_id ← skip_c_string body source_addr
  priority_flag ← skip_octets 1 body message_id
  schedule_delivery_time ← skip_c_string body priority_flag
  validity_period ← skip_c_string body schedule_delivery_time
  skip_octets 3 body validity_period

mandatory_len_query_broadcast_sm : List ℕ → Option ℕ
mandatory_len_query_broadcast_sm body = do
  message_id ← skip_c_string body 0
  source_ton_npi ← skip_octets 2 body message_id
  skip_c_string body source_ton_npi

mandatory_len_query_broadcast_sm_resp : List ℕ → Option ℕ
mandatory_len_query_broadcast_sm_resp body = do
  message_id ← skip_c_string body 0
  skip_octets 1 body message_id

mandatory_len_cancel_broadcast_sm : List ℕ → Option ℕ
mandatory_len_cancel_broadcast_sm body = do
  service_type ← skip_c_string body 0
  message_id ← skip_c_string body service_type
  source_ton_npi ← skip_octets 2 body message_id
  skip_c_string body source_ton_npi

-- A `switch` on a number: the first case that names it, or the default.
contains : List ℕ → ℕ → Bool
contains [] id = false
contains (x ∷ xs) id = id == x || contains xs id

switch {ℓ} : {A : Type ℓ} → ℕ → List (List ℕ × A) → A → A
unfolding contains
switch id [] otherwise = otherwise
switch id ((ids, a) ∷ rest) otherwise = if contains ids id then a else switch id rest otherwise

-- The cases of the switch, as functions of the body.
length_cases : List (List ℕ × (List ℕ → Option ℕ))
length_cases =
    (cmd_submit_sm ∷ cmd_deliver_sm ∷ [], mandatory_len_submit_deliver_sm)
    ∷ (cmd_submit_sm_resp ∷ cmd_deliver_sm_resp ∷ [], mandatory_len_c_string_only)
    ∷ (cmd_bind_transceiver ∷ cmd_bind_transmitter ∷ cmd_bind_receiver ∷ [], mandatory_len_bind)
    ∷ (
      cmd_bind_transceiver_resp ∷ cmd_bind_transmitter_resp ∷ cmd_bind_receiver_resp ∷ [],
      mandatory_len_c_string_only,
    )
    ∷ (cmd_query_sm ∷ [], mandatory_len_query_sm)
    ∷ (cmd_query_sm_resp ∷ [], mandatory_len_query_sm_resp)
    ∷ (cmd_cancel_sm ∷ [], mandatory_len_cancel_sm)
    ∷ (cmd_replace_sm ∷ [], mandatory_len_replace_sm)
    ∷ (cmd_data_sm ∷ [], mandatory_len_data_sm)
    ∷ (cmd_data_sm_resp ∷ [], mandatory_len_c_string_only)
    ∷ (cmd_alert_notification ∷ [], mandatory_len_alert_notification)
    ∷ (cmd_broadcast_sm ∷ [], mandatory_len_broadcast_sm)
    ∷ (cmd_broadcast_sm_resp ∷ [], mandatory_len_c_string_only)
    ∷ (cmd_query_broadcast_sm ∷ [], mandatory_len_query_broadcast_sm)
    ∷ (cmd_query_broadcast_sm_resp ∷ [], mandatory_len_query_broadcast_sm_resp)
    ∷ (cmd_cancel_broadcast_sm ∷ [], mandatory_len_cancel_broadcast_sm)
    ∷ (cmd_cancel_broadcast_sm_resp ∷ [], λ body. some 0)
    ∷ (cmd_cancel_sm_resp ∷ cmd_replace_sm_resp ∷ [], λ body. some 0)
    ∷ (
      cmd_enquire_link ∷ cmd_enquire_link_resp ∷ cmd_unbind ∷ cmd_unbind_resp ∷ cmd_generic_nack
          ∷ [],
      λ body. some 0,
    )
    ∷ (cmd_submit_multi ∷ cmd_submit_multi_resp ∷ [], λ body. none)
    ∷ []

pub mandatory_body_len : ℕ → List ℕ → Option ℕ
unfolding switch length_cases
mandatory_body_len command_id body = switch command_id length_cases (λ other. none) body
