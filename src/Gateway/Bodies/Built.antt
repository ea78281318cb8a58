-- ===== src/Gateway/Bodies/Built.antt =====
-- The bodies that the gateway builds, as the codec and its own parsers read them.
use go_smsc.Prelude.{
  ℕ, ◌^◌, ◌<◌, ◌≡◌, refl, ap, ◌∙◌, List, [], ◌∷◌, ◌++◌, some, ltb, if◌then◌else◌, length, ok,
}
use go_smsc.Smpp.Commands.{cmd_deliver_sm}
use go_smsc.Smpp.CString.Cursor.{NoNul}
use go_smsc.Smpp.Fields.Boundary.{layout_of}
use go_smsc.Smpp.Fields.Layout.{Parses, sm_layout}
use go_smsc.Smpp.Tlv.{TlvSet, lookup, encode}
use go_smsc.Smpp.Bodies.{put_short_message}
use go_smsc.Smpp.Bodies.Submit.{payload_tlvs, payload_tlvs-Fits, put_short_message-splits}
use go_smsc.Smpp.Pdu.{Pdu, extract_tlvs}
use go_smsc.Smpp.Pdu.Extract.{extract_tlvs-encode}
use go_smsc.Smpp.Parsers.{parse_deliver_sm}
use go_smsc.Smpp.Parsers.DeliverSm.{parse_deliver_sm-layout}
use go_smsc.Gateway.Bodies.{
  put_message, build_deliver_sm_body, build_submit_sm_body, parse_submit_sm_addresses,
}
use go_smsc.Gateway.Bodies.Rewrite.{parse_submit_sm_addresses-submit_body}

-- The gateway writes a message as EncodeSubmitSM does.
put_message-put_short_message : (sm : List ℕ) → put_message sm ≡ put_short_message sm
unfolding put_message put_short_message
put_message-put_short_message sm = refl

-- The part of a message that goes into short_message.
abbrev pub inline : List ℕ → List ℕ
inline sm = if ltb 254 (length sm) then [] else sm

put_message-splits :
    (sm : List ℕ) → put_message sm ≡ length (inline sm) ∷ (inline sm ++ encode (payload_tlvs sm))
put_message-splits sm =
    let (now, e, q) = put_short_message-splits sm in put_message-put_short_message sm ∙ rw q at e

-- ParseDeliverSM on a deliver_sm body of BuildDeliverSMBody returns the addresses, which hold no
-- NUL, the ESM class and the message, if it has 254 bytes at most. Of a longer message, which
-- travels in a message_payload TLV, it returns nothing.
pub parse_deliver_sm-build_deliver_sm_body :
    (source dest sm : List ℕ) (esm_class : ℕ)
    → NoNul source
    → NoNul dest
    → parse_deliver_sm (build_deliver_sm_body source dest esm_class sm) ≡ record {
      source_addr = source;
      dest_addr = dest;
      esm_class = esm_class;
      short_message = if ltb 254 (length sm) then [] else sm;
    }
unfolding build_deliver_sm_body
parse_deliver_sm-build_deliver_sm_body source dest sm esm_class hs hd = rw (put_message-splits sm) (
    parse_deliver_sm-layout [] source dest [] [] (inline sm) (encode (payload_tlvs sm)) 0 0 1 1
      esm_class 0 0 0 0 0 0 tt hs hd tt tt)

-- ParseSubmitSMAddresses reads back the addresses of a submit_sm body of BuildSubmitSMBody, where
-- they hold no NUL.
pub parse_submit_sm_addresses-build_submit_sm_body :
    (source dest message : List ℕ)
    → NoNul source
    → NoNul dest
    → parse_submit_sm_addresses (build_submit_sm_body source dest message) ≡ (source, dest)
unfolding build_submit_sm_body
parse_submit_sm_addresses-build_submit_sm_body source dest message hs hd =
    parse_submit_sm_addresses-submit_body [] source dest _ 0 0 1 1 tt hs hd

-- ExtractTLVs on a deliver_sm with a body of BuildDeliverSMBody finds, for addresses with no NUL and
-- a message below 65536 bytes, the message under message_payload where it is longer than 254 bytes,
-- and no TLV but that.
pub extract_tlvs-build_deliver_sm_body :
    (pdu : Pdu) (source dest sm : List ℕ) (esm_class : ℕ)
    → pdu.command_id ≡ cmd_deliver_sm
    → pdu.body ≡ build_deliver_sm_body source dest esm_class sm
    → NoNul source
    → NoNul dest
    → length sm < 2 ^ 16
    → (u : TlvSet) × (extract_tlvs pdu ≡ ok (some u))
      × ((k : ℕ) → lookup k u ≡ lookup k (payload_tlvs sm))
unfolding build_deliver_sm_body layout_of
extract_tlvs-build_deliver_sm_body pdu source dest sm esm_class id body hs hd small =
    let p : Parses sm_layout (build_deliver_sm_body source dest esm_class sm)
        (encode (payload_tlvs sm)) =
      (
        [],
        _,
        tt,
        refl,
        (
          0 ∷ 0 ∷ [],
          _,
          refl,
          refl,
          (
            source,
            _,
            hs,
            refl,
            (
              1 ∷ 1 ∷ [],
              _,
              refl,
              refl,
              (
                dest,
                _,
                hd,
                refl,
                (
                  esm_class ∷ 0 ∷ 0 ∷ [],
                  _,
                  refl,
                  refl,
                  (
                    [],
                    _,
                    tt,
                    refl,
                    (
                      [],
                      _,
                      tt,
                      refl,
                      (
                        0 ∷ 0 ∷ 0 ∷ 0 ∷ [],
                        _,
                        refl,
                        refl,
                        (inline sm, _, put_message-splits sm, refl),
                      ),
                    ),
                  ),
                ),
              ),
            ),
          ),
        ),
      ) in
    extract_tlvs-encode pdu sm_layout (payload_tlvs sm) (ap layout_of id) (rw body p)
      (payload_tlvs-Fits sm small)
