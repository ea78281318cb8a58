-- ===== src/Smpp/Bodies/Submit.antt =====
-- A submit_sm body from EncodeSubmitSM, as ExtractTLVs reads it: where the message is.
use go_smsc.Prelude.{
  ℕ, ◌%◌, ◌^◌, ◌<◌, ◌≡◌, refl, sym, ap, List, [], ◌∷◌, ◌++◌, Bool-cases, inl, inr, some, ltb,
  if◌then◌else◌, length, append-nil, All, ok, arith,
}
use go_smsc.Smpp.Commands.{cmd_submit_sm}
use go_smsc.Smpp.CString.Cursor.{NoNul}
use go_smsc.Smpp.Fields.Boundary.{layout_of}
use go_smsc.Smpp.Fields.Layout.{Parses, sm_layout}
use go_smsc.Smpp.Tlv.{TlvSet, lookup, encode}
use go_smsc.Smpp.Tlv.Wire.{Fits}
use go_smsc.Smpp.Tlv.RoundTrip.{encode-nil, encode-singleton}
use go_smsc.Smpp.Pdu.{Pdu, extract_tlvs}
use go_smsc.Smpp.Pdu.Extract.{extract_tlvs-encode}
use go_smsc.Smpp.Bodies.{Address, encode_submit_sm, put_short_message, message_payload_tag}

-- The TLVs that go with a short message: none, or the message itself.
abbrev pub payload_tlvs : List ℕ → TlvSet
payload_tlvs sm = if ltb 254 (length sm) then (message_payload_tag, sm) ∷ [] else []

-- A short message is written as a length byte that says how much follows, and the TLVs.
pub put_short_message-splits :
    (sm : List ℕ)
    → (now : List ℕ) × (put_short_message sm ≡ length now ∷ (now ++ encode (payload_tlvs sm)))
      × (now ≡ (if ltb 254 (length sm) then [] else sm))
unfolding put_short_message
put_short_message-splits sm = elim (Bool-cases (ltb 254 (length sm))) [
  | inl long ↦
      ([], rw long (ap (λ l. 0 ∷ l) (sym (encode-singleton message_payload_tag sm))), rw long)
  | inr short ↦
      let byte : length sm % 256 ≡ length sm = ground arith in
      (
        sm,
        rw (short, byte) (rw encode-nil (ap (λ l. length sm ∷ l) (sym (append-nil sm)))),
        rw short,
      )
]

pub payload_tlvs-Fits : (sm : List ℕ) → length sm < 2 ^ 16 → All Fits (payload_tlvs sm)
payload_tlvs-Fits sm h = elim (Bool-cases (ltb 254 (length sm))) [
  | inl long ↦ rw long ((omega arith, h), tt)
  | inr short ↦ rw short tt
]

encode_submit_sm-Parses :
    (source dest : Address) (esm_class protocol_id data_coding registered_delivery : ℕ)
    (sm : List ℕ)
    → NoNul source.addr
    → NoNul dest.addr
    → Parses sm_layout
        (encode_submit_sm source dest esm_class protocol_id data_coding registered_delivery sm)
        (encode (payload_tlvs sm))
unfolding encode_submit_sm
encode_submit_sm-Parses source dest esm_class protocol_id data_coding registered_delivery sm hs hd =
    let (now, splits, _) = put_short_message-splits sm in
    (
      [],
      _,
      tt,
      refl,
      (
        source.ton ∷ source.npi ∷ [],
        _,
        refl,
        refl,
        (
          source.addr,
          _,
          hs,
          refl,
          (
            dest.ton ∷ dest.npi ∷ [],
            _,
            refl,
            refl,
            (
              dest.addr,
              _,
              hd,
              refl,
              (
                esm_class ∷ protocol_id ∷ 0 ∷ [],
                _,
                refl,
                refl,
                (
                  [],
                  _,
                  tt,
                  refl,
                  (
                    [],
                    _,
                    tt,
                    refl,
                    (
                      registered_delivery ∷ 0 ∷ data_coding ∷ 0 ∷ [],
                      _,
                      refl,
                      refl,
                      (now, _, splits, refl),
                    ),
                  ),
                ),
              ),
            ),
          ),
        ),
      ),
    )

-- ExtractTLVs on a submit_sm body that EncodeSubmitSM built, for addresses with no NUL and a message
-- below 65536 bytes: under every tag it finds what `payload_tlvs` holds, the message under
-- message_payload where it is longer than 254 bytes, and nothing else.
pub extract_tlvs-encode_submit_sm :
    (pdu : Pdu) (source dest : Address) (esm_class protocol_id data_coding registered_delivery : ℕ)
    (sm : List ℕ)
    → pdu.command_id ≡ cmd_submit_sm
    → pdu.body
      ≡ encode_submit_sm source dest esm_class protocol_id data_coding registered_delivery sm
    → NoNul source.addr
    → NoNul dest.addr
    → length sm < 2 ^ 16
    → (u : TlvSet) × (extract_tlvs pdu ≡ ok (some u))
      × ((k : ℕ) → lookup k u ≡ lookup k (payload_tlvs sm))
unfolding layout_of
extract_tlvs-encode_submit_sm pdu source dest esm_class protocol_id data_coding registered_delivery
      sm id body hs hd small =
    let p =
      encode_submit_sm-Parses source dest esm_class protocol_id data_coding registered_delivery sm
        hs hd in
    extract_tlvs-encode pdu sm_layout (payload_tlvs sm) (ap layout_of id) (rw body p)
      (payload_tlvs-Fits sm small)
