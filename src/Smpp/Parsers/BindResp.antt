-- ===== src/Smpp/Parsers/BindResp.antt =====
-- ParseBindResp of smpp/bind.go on a bind response with TLVs.
use go_smsc.Prelude.{
  ℕ, ◌≡◌, List, ◌∷◌, ◌++◌, none, some, ltb, if◌then◌else◌, length, length-append, append_assoc, All,
  arith,
}
use go_smsc.Smpp.CString.{write_c_string_bytes}
use go_smsc.Smpp.CString.Cursor.{NoNul, At-start, At-c_string, read_c_string-At}
use go_smsc.Smpp.Tlv.{TlvSet, lookup, encode}
use go_smsc.Smpp.Tlv.Wire.{Fits}
use go_smsc.Smpp.Tlv.RoundTrip.{decode_tlvs-encode}
use go_smsc.Smpp.Parsers.{parse_bind_resp}

-- ParseBindResp on a system id as a C-string with an encoded TLV set behind it, whose tags and
-- value lengths fit 16 bits, returns the system id, which holds no NUL, and nil where the set is
-- written as nothing, else a set with the same value, or none, under every tag.
pub parse_bind_resp-encode :
    (command_id : ℕ) (system_id : List ℕ) (t : TlvSet)
    → NoNul system_id
    → All Fits t
    → (u : TlvSet) × (parse_bind_resp command_id (write_c_string_bytes system_id ++ encode t)
        ≡ (system_id, if ltb 0 (length (encode t)) then some u else none))
      × ((k : ℕ) → lookup k u ≡ lookup k t)
unfolding parse_bind_resp write_c_string_bytes
parse_bind_resp-encode command_id system_id t h fits =
    let (u, d, same) = decode_tlvs-encode t fits in
    let a0 = At-start (system_id ++ 0 ∷ encode t) in
    let a1 = At-c_string system_id a0 in
    (
      u,
      rw (append_assoc, read_c_string-At system_id (encode t) a0 h, a1.tail, d)
          (ground (arith, length-append system_id (0 ∷ encode t))),
      same,
    )
