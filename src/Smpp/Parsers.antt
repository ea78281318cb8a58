-- ===== src/Smpp/Parsers.antt =====
-- The parsers of PDU bodies in smpp/pdu.go, smpp/operations.go, smpp/broadcast.go, smpp/bind.go and
-- smpp/handler.go.
pub mod DeliverSm
pub mod BindResp
use go_smsc.Prelude.{
  ℕ, zero, suc, ◌+◌, Bool, not, ◌&&◌, List, [], ◌∷◌, ◌++◌, Option, none, some, ltb, leb, ◌==◌,
  if◌then◌else◌, ◌>>=◌, length, drop, slice, get_elem?, ok,
}
use Prim.Native.Nat.{bit_and}
use go_smsc.Prelude.Bytes.{byte_at, u32_at}
use go_smsc.Smpp.CString.{read_c_string}
use go_smsc.Smpp.Tlv.{TlvSet, decode_tlvs}

-- `if offset >= len(body) { return }; b := body[offset]; offset++`
abbrev pub next_byte : List ℕ → ℕ → Option (ℕ × ℕ)
next_byte body offset = get_elem? body offset >>= λ b. some (b, offset + 1)

-- The same for k bytes that are skipped one by one.
pub skip_bytes : ℕ → List ℕ → ℕ → Option ℕ
skip_bytes zero body offset = some offset
skip_bytes (suc k) body offset = next_byte body offset >>= λ (b, offset'). skip_bytes k body offset'

-- The message_id of submit_sm_resp, data_sm_resp and broadcast_sm_resp.
pub parse_submit_sm_resp : List ℕ → List ℕ
parse_submit_sm_resp body = if length body == 0 then [] else (read_c_string body 0).0

pub record Deliver : Type 0 where
  pub source_addr : List ℕ
  pub dest_addr : List ℕ
  pub esm_class : ℕ
  pub short_message : List ℕ

-- The named results of ParseDeliverSM as they stand where it returns early: they are filled in
-- order, so an early return gives those read so far.
no_deliver : Deliver
no_deliver = record { source_addr = []; dest_addr = []; esm_class = 0; short_message = [] }

or_return {ℓ} : {A : Type ℓ} → A → Option A → A
or_return early none = early
or_return early (some a) = a

-- From sm_length on.
deliver_message : List ℕ → ℕ → Deliver → Option Deliver
deliver_message body offset d = do
  (sm_len, start) ← next_byte body offset
  let fits = ltb 0 sm_len && leb (start + sm_len) (length body)
  some (if fits then record d { short_message = slice body start (start + sm_len) } else d)

-- From esm_class on.
deliver_rest : List ℕ → ℕ → Deliver → Deliver
unfolding or_return deliver_message skip_bytes
deliver_rest body offset d = or_return d do
  (esm_class, after_esm) ← next_byte body offset
  let d' = record d { esm_class = esm_class }
  some (
      or_return d' do
        flags ← skip_bytes 2 body after_esm
        let schedule = (read_c_string body flags).1
        let validity = (read_c_string body schedule).1
        delivery ← skip_bytes 4 body validity
        deliver_message body delivery d')

-- From dest_addr_ton on.
deliver_dest : List ℕ → ℕ → Deliver → Deliver
unfolding or_return deliver_rest
deliver_dest body offset d = or_return d do
  ton_npi ← skip_bytes 2 body offset
  let (dest_addr, behind) = read_c_string body ton_npi
  some (deliver_rest body behind (record d { dest_addr = dest_addr }))

pub parse_deliver_sm : List ℕ → Deliver
unfolding or_return deliver_dest no_deliver
parse_deliver_sm body =
    if length body == 0
    then no_deliver
    else or_return no_deliver do
      let service_type = (read_c_string body 0).1
      ton_npi ← skip_bytes 2 body service_type
      let (source_addr, behind) = read_c_string body ton_npi
      some (deliver_dest body behind (record no_deliver { source_addr = source_addr }))

pub record QueryResp : Type 0 where
  pub message_id : List ℕ
  pub final_date : List ℕ
  pub message_state : ℕ
  pub error_code : ℕ

-- A byte, or 0 where the body ends before it.
byte_or_zero : List ℕ → ℕ → ℕ
byte_or_zero body offset = elim (get_elem? body offset) [ none ↦ 0 | some b ↦ b ]

pub parse_query_sm_resp : List ℕ → QueryResp
unfolding byte_or_zero
parse_query_sm_resp body =
    let (message_id, behind_id) = read_c_string body 0 in
    let (final_date, offset) = read_c_string body behind_id in
    if length body == 0
    then record { message_id = []; final_date = []; message_state = 0; error_code = 0 }
    else record {
      message_id = message_id;
      final_date = final_date;
      message_state = byte_or_zero body offset;
      error_code = if ltb offset (length body) then byte_or_zero body (offset + 1) else 0;
    }

pub parse_query_broadcast_sm_resp : List ℕ → List ℕ × ℕ
unfolding byte_or_zero
parse_query_broadcast_sm_resp body =
    let (message_id, offset) = read_c_string body 0 in
    if length body == 0 then ([], 0) else (message_id, byte_or_zero body offset)

-- The system id, and the TLVs; `none` is nil, also where they are malformed.
pub parse_bind_resp : ℕ → List ℕ → List ℕ × Option TlvSet
parse_bind_resp command_id body =
    let (system_id, offset) = read_c_string body 0 in
    let tlvs : Option TlvSet = elim (decode_tlvs (drop offset body)) [ ok t ↦ some t | _ ↦ none ] in
    if length body == 0
    then ([], none)
    else (system_id, if ltb offset (length body) then tlvs else none)

-- UnsuccessDest of a submit_multi_resp.
pub record UnsuccessDest : Type 0 where
  pub ton : ℕ
  pub npi : ℕ
  pub address : List ℕ
  pub error_code : ℕ

-- One round: the entry and the offset behind it, or `none` where the loop breaks.
unsuccess_entry : List ℕ → ℕ → Option (UnsuccessDest × ℕ)
unsuccess_entry body offset = do
  (ton, o1) ← next_byte body offset
  (npi, o2) ← next_byte body o1
  let (address, o3) = read_c_string body o2
  let entry : UnsuccessDest = record {
    ton = ton;
    npi = npi;
    address = address;
    error_code = u32_at body o3;
  }
  if ltb (length body) (o3 + 4) then none else some (entry, o3 + 4)

-- `for i := 0; i < numUnsuccess && offset < len(body); i++`, on the rounds left.
unsuccess_loop : ℕ → List ℕ → ℕ → List UnsuccessDest
unfolding unsuccess_entry
unsuccess_loop zero body offset = []
unsuccess_loop (suc n) body offset = elim (unsuccess_entry body offset) [
  | none ↦ []
  | some (u, offset') ↦ u ∷ unsuccess_loop n body offset'
]

pub parse_submit_multi_resp : List ℕ → List ℕ × List UnsuccessDest
unfolding unsuccess_loop
parse_submit_multi_resp body =
    let (message_id, offset) = read_c_string body 0 in
    if length body == 0 then ([], []) else elim (get_elem? body offset) [
      | none ↦ (message_id, [])
      | some n ↦ (message_id, unsuccess_loop n body (offset + 1))
    ]

-- IsDLR: bit 2 of the ESM class.
pub is_dlr : ℕ → Bool
is_dlr esm_class = not (bit_and esm_class 0x04 == 0)

pub record Alert : Type 0 where
  pub source_ton : ℕ
  pub source_npi : ℕ
  pub source_addr : List ℕ
  pub esme_ton : ℕ
  pub esme_npi : ℕ
  pub esme_addr : List ℕ

-- The ESME's address, where the body goes that far.
alert_esme : List ℕ → ℕ → Alert → Alert
unfolding or_return
alert_esme body offset alert = or_return alert do
  (ton, o1) ← next_byte body offset
  let alert' = record alert { esme_ton = ton }
  some (
      or_return alert' do
        (npi, o2) ← next_byte body o1
        some (record alert' { esme_npi = npi; esme_addr = (read_c_string body o2).0 }))

no_alert : Alert
no_alert = record {
  source_ton = 0;
  source_npi = 0;
  source_addr = [];
  esme_ton = 0;
  esme_npi = 0;
  esme_addr = [];
}

pub parse_alert_notification : List ℕ → Alert
unfolding alert_esme no_alert
parse_alert_notification body =
    let (source_addr, offset) = read_c_string body 2 in
    let source = record no_alert {
      source_ton = byte_at body 0;
      source_npi = byte_at body 1;
      source_addr = source_addr;
    } in
    if ltb (length body) 2 then no_alert else alert_esme body offset source
