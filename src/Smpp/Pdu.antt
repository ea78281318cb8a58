-- ===== src/Smpp/Pdu.antt =====
-- The PDU header codec of smpp/pdu.go, and ExtractTLVs of smpp/pdu_fields.go.
pub mod RoundTrip
pub mod Extract
use go_smsc.Prelude.{
  ℕ, ◌+◌, ◌-◌, ◌%◌, ◌^◌, Bool, ◌&&◌, ◌||◌, List, [], ◌∷◌, ◌++◌, Option, none, some, ltb, ◌==◌,
  if◌then◌else◌, length, drop, slice, Result, ok, err, stuck,
}
use go_smsc.Prelude.Bytes.{put_u32, u32_at}
use go_smsc.Smpp.Tlv.{TlvSet, TlvError, encode, decode_tlvs}
use go_smsc.Smpp.Fields.{mandatory_body_len}

-- `tlvs` is `none` for nil.
pub record Pdu : Type 0 where
  pub command_length : ℕ
  pub command_id : ℕ
  pub command_status : ℕ
  pub sequence_number : ℕ
  pub body : List ℕ
  pub tlvs : Option TlvSet

pub data PduError : Type 0 where
  short_header short_pdu : PduError

abbrev pub pdu_header_len : ℕ
pdu_header_len = 16

unfoldable pub tlv_bytes : Option TlvSet → List ℕ
tlv_bytes none = []
tlv_bytes (some t) = encode t

-- The PDU with its length set, and the bytes; `none` where the source panics, since the length
-- wraps at 2 ^ 32 and the buffer is then too short for what is written to it.
unfoldable pub encode_pdu : Pdu → Option (Pdu × List ℕ)
unfolding tlv_bytes
encode_pdu pdu =
    let tail = tlv_bytes pdu.tlvs in
    let command_length = (pdu_header_len + length pdu.body + length tail) % 2 ^ 32 in
    let too_short =
      ltb command_length pdu_header_len
      || (ltb 0 (length tail) && ltb command_length (pdu_header_len + length pdu.body)) in
    let header =
      put_u32 command_length
      ++ put_u32 pdu.command_id
      ++ put_u32 pdu.command_status
      ++ put_u32 pdu.sequence_number in
    if too_short
    then none
    else some (
      record pdu { command_length = command_length },
      slice (header ++ (pdu.body ++ tail)) 0 command_length,
    )

pub decode_pdu : List ℕ → Result PduError Pdu
decode_pdu bytes =
    let cmd_len = u32_at bytes 0 in
    if ltb (length bytes) pdu_header_len
    then err short_header
    else if ltb (length bytes % 2 ^ 32) cmd_len
    then err short_pdu
    else ok (record {
      command_length = cmd_len;
      command_id = u32_at bytes 4;
      command_status = u32_at bytes 8;
      sequence_number = u32_at bytes 12;
      body = if ltb pdu_header_len cmd_len then slice bytes pdu_header_len cmd_len else [];
      tlvs = none;
    })

-- `ok none` is the source's (nil, nil): the command has no known layout.
pub extract_tlvs : Pdu → Result TlvError (Option TlvSet)
extract_tlvs pdu = elim (mandatory_body_len pdu.command_id pdu.body) [
  | none ↦ ok none
  | some offset ↦
      if offset == length pdu.body
      then ok (some [])
      else elim (decode_tlvs (drop offset pdu.body)) [
        | ok t ↦ ok (some t)
        | err e ↦ err e
        | stuck ↦ stuck
      ]
]
