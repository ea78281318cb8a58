-- ===== src/Smpp/Fields/Layout.antt =====
-- The layouts that the comments of smpp/pdu_fields.go describe, as data, and what it means that a
-- body begins with one. Nothing here mentions the code.
use go_smsc.Prelude.{ℕ, ◌≡◌, ◌⊎◌, List, [], ◌∷◌, ◌++◌, length}
use go_smsc.Smpp.CString.Cursor.{NoNul}
use go_smsc.Smpp.Commands.{
  cmd_bind_receiver, cmd_bind_receiver_resp, cmd_bind_transmitter, cmd_bind_transmitter_resp,
  cmd_query_sm, cmd_query_sm_resp, cmd_submit_sm, cmd_submit_sm_resp, cmd_deliver_sm,
  cmd_deliver_sm_resp, cmd_unbind, cmd_unbind_resp, cmd_replace_sm, cmd_replace_sm_resp,
  cmd_cancel_sm, cmd_cancel_sm_resp, cmd_bind_transceiver, cmd_bind_transceiver_resp,
  cmd_enquire_link, cmd_enquire_link_resp, cmd_alert_notification, cmd_data_sm, cmd_data_sm_resp,
  cmd_broadcast_sm, cmd_broadcast_sm_resp, cmd_query_broadcast_sm, cmd_query_broadcast_sm_resp,
  cmd_cancel_broadcast_sm, cmd_cancel_broadcast_sm_resp, cmd_generic_nack,
}

pub data Field : Type 0 where
  -- Text up to a NUL.
  c_string : Field
  -- The same, or nothing at all where the body is empty.
  optional_c_string : Field
  -- So many bytes.
  octets : ℕ → Field
  -- A length byte, and so many bytes.
  message : Field

-- `body` is a value of each field in turn, followed by `rest`.
abbrev pub Parses : List Field → List ℕ → List ℕ → Type 0
Parses [] body rest = body ≡ rest
Parses (c_string ∷ fs) body rest =
    (s : List ℕ) × (next : List ℕ) × NoNul s × (body ≡ s ++ 0 ∷ next) × Parses fs next rest
Parses (optional_c_string ∷ fs) body rest =
    ((body ≡ []) × Parses fs [] rest)
    ⊎ ((s : List ℕ) × (next : List ℕ) × NoNul s × (body ≡ s ++ 0 ∷ next) × Parses fs next rest)
Parses (octets k ∷ fs) body rest =
    (front : List ℕ) × (next : List ℕ) × (length front ≡ k)
    × (body ≡ front ++ next)
    × Parses fs next rest
Parses (message ∷ fs) body rest =
    (sm : List ℕ) × (next : List ℕ) × (body ≡ length sm ∷ (sm ++ next)) × Parses fs next rest

-- submit_sm and deliver_sm
abbrev pub sm_layout : List Field
sm_layout =
    c_string
    ∷ octets 2
    ∷ c_string
    ∷ octets 2
    ∷ c_string
    ∷ octets 3
    ∷ c_string
    ∷ c_string
    ∷ octets 4
    ∷ message
    ∷ []

abbrev pub response_layout : List Field
response_layout = optional_c_string ∷ []

abbrev pub bind_layout : List Field
bind_layout = c_string ∷ c_string ∷ c_string ∷ octets 3 ∷ c_string ∷ []

abbrev pub query_layout : List Field
query_layout = c_string ∷ octets 2 ∷ c_string ∷ []

abbrev pub query_resp_layout : List Field
query_resp_layout = c_string ∷ c_string ∷ octets 2 ∷ []

abbrev pub cancel_layout : List Field
cancel_layout = c_string ∷ c_string ∷ octets 2 ∷ c_string ∷ octets 2 ∷ c_string ∷ []

abbrev pub replace_layout : List Field
replace_layout = c_string ∷ octets 2 ∷ c_string ∷ c_string ∷ c_string ∷ octets 2 ∷ message ∷ []

abbrev pub data_layout : List Field
data_layout = c_string ∷ octets 2 ∷ c_string ∷ octets 2 ∷ c_string ∷ octets 3 ∷ []

abbrev pub alert_layout : List Field
alert_layout = octets 2 ∷ c_string ∷ octets 2 ∷ c_string ∷ []

abbrev pub broadcast_layout : List Field
broadcast_layout =
    c_string ∷ octets 2 ∷ c_string ∷ c_string ∷ octets 1 ∷ c_string ∷ c_string ∷ octets 3 ∷ []

abbrev pub query_broadcast_resp_layout : List Field
query_broadcast_resp_layout = c_string ∷ octets 1 ∷ []

abbrev pub cancel_broadcast_layout : List Field
cancel_broadcast_layout = c_string ∷ c_string ∷ octets 2 ∷ c_string ∷ []

-- Each command with its layout. submit_multi and its response have none.
abbrev pub layouts : List (ℕ × List Field)
layouts =
    (cmd_submit_sm, sm_layout)
    ∷ (cmd_deliver_sm, sm_layout)
    ∷ (cmd_submit_sm_resp, response_layout)
    ∷ (cmd_deliver_sm_resp, response_layout)
    ∷ (cmd_bind_transceiver, bind_layout)
    ∷ (cmd_bind_transmitter, bind_layout)
    ∷ (cmd_bind_receiver, bind_layout)
    ∷ (cmd_bind_transceiver_resp, response_layout)
    ∷ (cmd_bind_transmitter_resp, response_layout)
    ∷ (cmd_bind_receiver_resp, response_layout)
    ∷ (cmd_query_sm, query_layout)
    ∷ (cmd_query_sm_resp, query_resp_layout)
    ∷ (cmd_cancel_sm, cancel_layout)
    ∷ (cmd_replace_sm, replace_layout)
    ∷ (cmd_data_sm, data_layout)
    ∷ (cmd_data_sm_resp, response_layout)
    ∷ (cmd_alert_notification, alert_layout)
    ∷ (cmd_broadcast_sm, broadcast_layout)
    ∷ (cmd_broadcast_sm_resp, response_layout)
    ∷ (cmd_query_broadcast_sm, query_layout)
    ∷ (cmd_query_broadcast_sm_resp, query_broadcast_resp_layout)
    ∷ (cmd_cancel_broadcast_sm, cancel_broadcast_layout)
    ∷ (cmd_cancel_broadcast_sm_resp, [])
    ∷ (cmd_cancel_sm_resp, [])
    ∷ (cmd_replace_sm_resp, [])
    ∷ (cmd_enquire_link, [])
    ∷ (cmd_enquire_link_resp, [])
    ∷ (cmd_unbind, [])
    ∷ (cmd_unbind_resp, [])
    ∷ (cmd_generic_nack, [])
    ∷ []
