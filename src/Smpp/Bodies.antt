-- ===== src/Smpp/Bodies.antt =====
-- The encoders of PDU bodies in smpp/pdu.go, smpp/bind.go, smpp/operations.go and smpp/broadcast.go.
-- A buffer that is only appended to is the concatenation of what is written; one byte of a wider
-- number is its remainder by 256.
pub mod Boundaries
pub mod Submit
use go_smsc.Prelude.{ℕ, ◌+◌, ◌%◌, Bool, List, [], ◌∷◌, ◌++◌, ltb, ◌==◌, if◌then◌else◌, length}
use go_smsc.Prelude.Bytes.{put_u16}

-- `writeCString(&buf, s)`, and what is written after it.
abbrev pub put_c_string : List ℕ → List ℕ → List ℕ
put_c_string s rest = s ++ 0 ∷ rest

pub data BindMode : Type 0 where
  bind_transceiver bind_transmitter bind_receiver : BindMode

-- The mode does not enter the body.
pub encode_bind : BindMode → List ℕ → List ℕ → List ℕ → ℕ → List ℕ
encode_bind mode system_id password system_type interface_version = put_c_string system_id (
    put_c_string password
      (put_c_string system_type (interface_version ∷ 0 ∷ 0 ∷ put_c_string [] [])))

pub encode_bind_transceiver : List ℕ → List ℕ → List ℕ → List ℕ
unfolding encode_bind
encode_bind_transceiver system_id password system_type =
    encode_bind bind_transceiver system_id password system_type 0x34

abbrev pub message_payload_tag : ℕ
message_payload_tag = 0x0424

-- sm_length and short_message, or sm_length 0 and a message_payload TLV.
unfoldable pub put_short_message : List ℕ → List ℕ
put_short_message short_message =
    if ltb 254 (length short_message)
    then 0 ∷ (put_u16 message_payload_tag ++ put_u16 (length short_message) ++ short_message)
    else (length short_message % 256) ∷ short_message

-- What stands at both ends of a submit_sm: TON and NPI, and the address.
pub record Address : Type 0 where
  pub ton : ℕ
  pub npi : ℕ
  pub addr : List ℕ

pub encode_submit_sm : Address → Address → ℕ → ℕ → ℕ → ℕ → List ℕ → List ℕ
unfolding put_short_message
encode_submit_sm source dest esm_class protocol_id data_coding registered_delivery short_message =
    put_c_string [] (
      source.ton
      ∷ source.npi
      ∷ put_c_string source.addr (
          dest.ton
          ∷ dest.npi
          ∷ put_c_string dest.addr (
              esm_class
              ∷ protocol_id
              ∷ 0
              ∷ put_c_string [] (
                  put_c_string [] (
                    registered_delivery ∷ 0 ∷ data_coding ∷ 0 ∷ put_short_message short_message)))))

pub encode_query_sm : List ℕ → Address → List ℕ
encode_query_sm message_id source =
    put_c_string message_id (source.ton ∷ source.npi ∷ put_c_string source.addr [])

pub encode_cancel_sm : List ℕ → List ℕ → Address → Address → List ℕ
encode_cancel_sm service_type message_id source dest = put_c_string service_type (
    put_c_string message_id (
      source.ton
      ∷ source.npi
      ∷ put_c_string source.addr (dest.ton ∷ dest.npi ∷ put_c_string dest.addr [])))

-- The caller passes `smLength` beside the message; `data_coding` is not written.
pub encode_replace_sm : List ℕ → Address → List ℕ → List ℕ → ℕ → ℕ → ℕ → List ℕ → List ℕ
encode_replace_sm message_id source schedule_delivery_time validity_period registered_delivery
      data_coding sm_length short_message =
    put_c_string message_id (
      source.ton
      ∷ source.npi
      ∷ put_c_string source.addr (
          put_c_string schedule_delivery_time
            (put_c_string validity_period (registered_delivery ∷ 0 ∷ sm_length ∷ short_message))))

pub encode_data_sm : List ℕ → Address → Address → ℕ → ℕ → ℕ → List ℕ
encode_data_sm service_type source dest esm_class registered_delivery data_coding =
    put_c_string service_type (
      source.ton
      ∷ source.npi
      ∷ put_c_string source.addr (
          dest.ton
          ∷ dest.npi
          ∷ put_c_string dest.addr (esm_class ∷ registered_delivery ∷ data_coding ∷ [])))

-- DestAddress of a submit_multi.
pub record DestAddress : Type 0 where
  pub flag : ℕ
  pub ton : ℕ
  pub npi : ℕ
  pub address : List ℕ

put_dest : DestAddress → List ℕ → List ℕ
put_dest d rest =
    d.flag
    ∷ (if d.flag == 2
        then put_c_string d.address rest
        else d.ton ∷ d.npi ∷ put_c_string d.address rest)

put_dests : List DestAddress → List ℕ → List ℕ
unfolding put_dest
put_dests [] rest = rest
put_dests (d ∷ ds) rest = put_dest d (put_dests ds rest)

pub encode_submit_multi :
    List ℕ → Address → List DestAddress → ℕ → ℕ → ℕ → List ℕ → List ℕ → ℕ → ℕ → List ℕ → List ℕ
unfolding put_dests
encode_submit_multi service_type source dests esm_class protocol_id priority_flag
      schedule_delivery_time validity_period registered_delivery data_coding short_message =
    put_c_string service_type (
      source.ton
      ∷ source.npi
      ∷ put_c_string source.addr (
          (length dests % 256)
          ∷ put_dests dests (
              esm_class
              ∷ protocol_id
              ∷ priority_flag
              ∷ put_c_string schedule_delivery_time (
                  put_c_string validity_period (
                    registered_delivery
                    ∷ 0
                    ∷ data_coding
                    ∷ 0
                    ∷ (length short_message % 256)
                    ∷ short_message)))))

pub encode_broadcast_sm : List ℕ → Address → List ℕ → ℕ → List ℕ → List ℕ → ℕ → ℕ → ℕ → List ℕ
encode_broadcast_sm service_type source message_id priority_flag schedule_delivery_time
      validity_period replace_if_present data_coding sm_default_msg_id =
    put_c_string service_type (
      source.ton
      ∷ source.npi
      ∷ put_c_string source.addr (
          put_c_string message_id (
            priority_flag
            ∷ put_c_string schedule_delivery_time (
                put_c_string validity_period
                  (replace_if_present ∷ data_coding ∷ sm_default_msg_id ∷ [])))))

pub encode_query_broadcast_sm : List ℕ → Address → List ℕ
encode_query_broadcast_sm message_id source =
    put_c_string message_id (source.ton ∷ source.npi ∷ put_c_string source.addr [])

pub encode_cancel_broadcast_sm : List ℕ → List ℕ → Address → List ℕ
encode_cancel_broadcast_sm service_type message_id source =
    put_c_string service_type
      (put_c_string message_id (source.ton ∷ source.npi ∷ put_c_string source.addr []))
