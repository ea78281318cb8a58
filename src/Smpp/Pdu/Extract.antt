-- ===== src/Smpp/Pdu/Extract.antt =====
-- ExtractTLVs of smpp/pdu_fields.go finds the TLVs that a sender put behind the mandatory fields.
use go_smsc.Prelude.{
  ℕ, ◌+◌, ◌^◌, ◌<◌, ◌≡◌, ap, ◌∙◌, inl, inr, List, [], ◌∷◌, ◌++◌, append_assoc, Bool-cases, none,
  some, ◌==◌, if◌then◌else◌, length, length-append, drop, All, ok, err, stuck, arith,
}
use go_smsc.Smpp.Fields.Layout.{Field, c_string, optional_c_string, octets, message, Parses}
use go_smsc.Smpp.Fields.{mandatory_body_len}
use go_smsc.Smpp.Fields.Boundary.{layout_of, mandatory_body_len_complete}
use go_smsc.Smpp.Tlv.{TlvSet, encode, decode_tlvs, lookup}
use go_smsc.Smpp.Tlv.Wire.{Fits, wire, set_all, decode_tlvs-wire}
use go_smsc.Smpp.Tlv.RoundTrip.{decode_tlvs-encode}
use go_smsc.Smpp.Pdu.RoundTrip.{IsSendable, wire_body, decode_pdu-encode_pdu}
use go_smsc.Smpp.Pdu.{Pdu, tlv_bytes, encode_pdu, decode_pdu, extract_tlvs}

-- No field may be missing altogether.
abbrev pub IsPlain : List Field → Type 0
IsPlain [] = Unit
IsPlain (c_string ∷ fs) = IsPlain fs
IsPlain (optional_c_string ∷ fs) = ⊥
IsPlain (octets k ∷ fs) = IsPlain fs
IsPlain (message ∷ fs) = IsPlain fs

-- Bytes behind a value of a layout.
pub Parses-append :
    (fs : List Field) (body rest tail : List ℕ)
    → IsPlain fs
    → Parses fs body rest
    → Parses fs (body ++ tail) (rest ++ tail)
Parses-append [] body rest tail h p = ap (λ l. l ++ tail) p
Parses-append (c_string ∷ fs) body rest tail h (s, next, n, e, p) =
    (s, next ++ tail, n, rw e (append_assoc s (0 ∷ next) tail), Parses-append fs next rest tail h p)
Parses-append (optional_c_string ∷ fs) body rest tail h p = absurd h
Parses-append (octets k ∷ fs) body rest tail h (front, next, n, e, p) = (
  front,
  next ++ tail,
  n,
  rw e (append_assoc front next tail),
  Parses-append fs next rest tail h p,
)
Parses-append (message ∷ fs) body rest tail h (sm, next, e, p) = (
  sm,
  next ++ tail,
  rw e (ap (λ l. length sm ∷ l) (append_assoc sm next tail)),
  Parses-append fs next rest tail h p,
)

-- Where a body is a value of its command's layout, MandatoryBodyLen gives its length, whatever
-- bytes follow it.
pub mandatory_body_len-append :
    (id : ℕ) (fs : List Field) (body tail : List ℕ)
    → layout_of id ≡ some fs
    → IsPlain fs
    → Parses fs body []
    → mandatory_body_len id (body ++ tail) ≡ some (length body)
mandatory_body_len-append id fs body tail known plain p =
    let (n, e, _, size) =
      mandatory_body_len_complete id fs (body ++ tail) tail known
        (Parses-append fs body [] tail plain p) in
    e ∙ ap some (omega (arith, size, length-append body tail))

-- What ExtractTLVs does once the boundary is known.
extract_tlvs-at :
    (pdu : Pdu) (n : ℕ)
    → mandatory_body_len pdu.command_id pdu.body ≡ some n
    → extract_tlvs pdu ≡ (
        if n == length pdu.body then ok (some []) else elim (decode_tlvs (drop n pdu.body)) [
          | ok t ↦ ok (some t)
          | err e ↦ err e
          | stuck ↦ stuck
        ])
unfolding extract_tlvs
extract_tlvs-at pdu n e = rw (e, extract_tlvs)

decode_tlvs-nil : decode_tlvs [] ≡ ok []
unfolding wire set_all
decode_tlvs-nil = decode_tlvs-wire [] tt

-- Where the bytes behind the mandatory fields are an encoded TLV set, whose tags and value lengths
-- fit 16 bits, ExtractTLVs returns a set with the same value, or none, under every tag.
pub extract_tlvs-encode :
    (pdu : Pdu) (fs : List Field) (t : TlvSet)
    → layout_of pdu.command_id ≡ some fs
    → Parses fs pdu.body (encode t)
    → All Fits t
    → (u : TlvSet) × (extract_tlvs pdu ≡ ok (some u)) × ((k : ℕ) → lookup k u ≡ lookup k t)
extract_tlvs-encode pdu fs t known p fits =
    let (n, e, here, size) =
      mandatory_body_len_complete pdu.command_id fs pdu.body (encode t) known p in
    let (u, d, same) = decode_tlvs-encode t fits in
    elim (Bool-cases (n == length pdu.body)) [
      | inl all ↦
          let nothing : encode t ≡ [] = ground (arith, size) in
          let empty : u ≡ [] = cc (d, ap decode_tlvs nothing, decode_tlvs-nil) in
          (u, extract_tlvs-at pdu n e ∙ rw (all, empty), same)
      | inr more ↦ (u, extract_tlvs-at pdu n e ∙ rw (more, here, d), same)
    ]

-- A PDU that EncodePDU sends with its TLVs, whose body is a value of its command's layout and the
-- layout has no optional field, is decoded by DecodePDU, also with later PDUs behind it, and
-- ExtractTLVs on the decoded PDU returns a set with the same value, or none, under every tag. The
-- header fields fit 32 bits, tags and value lengths 16 bits, and all the bytes are fewer than 2 ^
-- 32.
pub extract_tlvs-sent :
    (pdu : Pdu) (fs : List Field) (t : TlvSet) (more : List ℕ)
    → pdu.tlvs ≡ some t
    → layout_of pdu.command_id ≡ some fs
    → IsPlain fs
    → Parses fs pdu.body []
    → All Fits t
    → IsSendable pdu
    → 16 + length pdu.body + length (tlv_bytes pdu.tlvs) + length more < 2 ^ 32
    → (sent : Pdu) × (bytes : List ℕ) × (got : Pdu) × (u : TlvSet) × (encode_pdu pdu
        ≡ some (sent, bytes))
      × (decode_pdu (bytes ++ more) ≡ ok got)
      × (extract_tlvs got ≡ ok (some u))
      × ((k : ℕ) → lookup k u ≡ lookup k t)
unfolding tlv_bytes wire_body
extract_tlvs-sent pdu fs t more has_t known plain p fits s room =
    let (sent, bytes, sends, _, decodes) = decode_pdu-encode_pdu pdu more s room in
    let got : Pdu = record pdu {
      command_length = sent.command_length;
      body = wire_body pdu;
      tlvs = none;
    } in
    let parses : Parses fs (wire_body pdu) (encode t) =
      rw has_t (Parses-append fs pdu.body [] (encode t) plain p) in
    let (u, x, holds) = extract_tlvs-encode got fs t known parses fits in
    (sent, bytes, got, u, sends, decodes, x, holds)
