-- ===== src/Smpp/Pdu/RoundTrip.antt =====
-- DecodePDU reads back what EncodePDU wrote.
use go_smsc.Prelude.{
  ℕ, ◌+◌, ◌%◌, ◌^◌, ◌<◌, ◌≡◌, ◌∙◌, ap, sym, subst, append-nil, List, [], ◌∷◌, ◌++◌, append_assoc,
  none, some, length, length-append, take, take-all, slice, ok, arith,
}
use go_smsc.Prelude.Bytes.{put_u32, u32_of-put_u32, u32_at}
use go_smsc.Smpp.CString.Cursor.{At, At-start, At-append, u32_at-At, slice-At}
use go_smsc.Smpp.Pdu.{Pdu, tlv_bytes, encode_pdu, decode_pdu}

-- The header fields fit their 32 bits, and so does the whole PDU.
pub record IsSendable (pdu : Pdu) : Type 0 where
  pub id_fits : pdu.command_id < 2 ^ 32
  pub status_fits : pdu.command_status < 2 ^ 32
  pub sequence_fits : pdu.sequence_number < 2 ^ 32
  pub length_fits : 16 + length pdu.body + length (tlv_bytes pdu.tlvs) < 2 ^ 32

-- The body as the receiver sees it: the TLVs follow the mandatory fields.
unfoldable pub wire_body : Pdu → List ℕ
wire_body pdu = pdu.body ++ tlv_bytes pdu.tlvs

abbrev total : Pdu → ℕ
total pdu = 16 + length pdu.body + length (tlv_bytes pdu.tlvs)

abbrev pub wire_header : ℕ → Pdu → List ℕ
wire_header n pdu =
    put_u32 n ++ put_u32 pdu.command_id ++ put_u32 pdu.command_status ++ put_u32 pdu.sequence_number

encode_pdu-bytes :
    (pdu : Pdu)
    → IsSendable pdu
    → encode_pdu pdu
      ≡ some
          (record pdu { command_length = total pdu }, wire_header (total pdu) pdu ++ wire_body pdu)
unfolding encode_pdu wire_body
encode_pdu-bytes pdu s =
    let n : ℕ = total pdu in
    let same : n % 2 ^ 32 ≡ n = omega (arith, s.length_fits) in
    let all : List ℕ = wire_header n pdu ++ (pdu.body ++ tlv_bytes pdu.tlvs) in
    let size : n ≡ length all = omega (arith, length-append pdu.body (tlv_bytes pdu.tlvs)) in
    let whole : take n all ≡ all = take-all n all size in rw same (ground (arith, whole))

decode_pdu-parts :
    (bytes payload : List ℕ) (n i s q extra : ℕ)
    → u32_at bytes 0 ≡ n
    → u32_at bytes 4 ≡ i
    → u32_at bytes 8 ≡ s
    → u32_at bytes 12 ≡ q
    → n ≡ 16 + length payload
    → length bytes ≡ n + extra
    → n + extra < 2 ^ 32
    → slice bytes 16 n ≡ payload
    → decode_pdu bytes
      ≡ ok (record {
        command_length = n;
        command_id = i;
        command_status = s;
        sequence_number = q;
        body = payload;
        tlvs = none;
      })
unfolding decode_pdu
decode_pdu-parts bytes [] n i s q extra en ei es eq size len fits cut =
    rw (en, ei, es, eq) (ground arith)
decode_pdu-parts bytes (b ∷ payload) n i s q extra en ei es eq size len fits cut =
    rw (en, ei, es, eq, cut) (ground arith)

-- What DecodePDU makes of a header and a body, with further bytes behind them.
decode_pdu-wire :
    (n : ℕ) (pdu : Pdu) (payload more : List ℕ)
    → n ≡ 16 + length payload
    → n < 2 ^ 32
    → pdu.command_id < 2 ^ 32
    → pdu.command_status < 2 ^ 32
    → pdu.sequence_number < 2 ^ 32
    → n + length more < 2 ^ 32
    → decode_pdu (wire_header n pdu ++ (payload ++ more))
      ≡ ok (record pdu { command_length = n; body = payload; tlvs = none })
unfolding decode_pdu
decode_pdu-wire n pdu payload more size hn hi hs hq room =
    let bytes : List ℕ = wire_header n pdu ++ (payload ++ more) in
    let at0 : At bytes 0 (put_u32 n ++ _) = At-start bytes in
    let at4 : At bytes 4 (put_u32 pdu.command_id ++ _) = At-append (put_u32 n) at0 in
    let at8 : At bytes 8 (put_u32 pdu.command_status ++ _) =
      At-append (put_u32 pdu.command_id) at4 in
    let at12 : At bytes 12 (put_u32 pdu.sequence_number ++ _) =
      At-append (put_u32 pdu.command_status) at8 in
    let at16 : At bytes 16 (payload ++ more) = At-append (put_u32 pdu.sequence_number) at12 in
    let e0 : u32_at bytes 0 ≡ n = u32_at-At _ _ _ _ _ at0 ∙ u32_of-put_u32 n hn in
    let e4 : u32_at bytes 4 ≡ pdu.command_id =
      u32_at-At _ _ _ _ _ at4 ∙ u32_of-put_u32 pdu.command_id hi in
    let e8 : u32_at bytes 8 ≡ pdu.command_status =
      u32_at-At _ _ _ _ _ at8 ∙ u32_of-put_u32 pdu.command_status hs in
    let e12 : u32_at bytes 12 ≡ pdu.sequence_number =
      u32_at-At _ _ _ _ _ at12 ∙ u32_of-put_u32 pdu.sequence_number hq in
    let cut : slice bytes 16 n ≡ payload = rw size (slice-At payload more at16) in
    let len : length bytes ≡ n + length more =
      omega (arith, at16.room, length-append payload more, size) in
    decode_pdu-parts bytes payload n _ _ _ (length more) e0 e4 e8 e12 size len room cut

-- EncodePDU sets the length, and DecodePDU reads the PDU back from the bytes, also with the bytes
-- of later PDUs behind them: the header is the same, and the body is followed by the encoded TLVs.
-- The header fields fit 32 bits, and all the bytes are fewer than 2 ^ 32.
pub decode_pdu-encode_pdu :
    (pdu : Pdu) (more : List ℕ)
    → IsSendable pdu
    → 16 + length pdu.body + length (tlv_bytes pdu.tlvs) + length more < 2 ^ 32
    → (sent : Pdu) × (bytes : List ℕ) × (encode_pdu pdu ≡ some (sent, bytes))
      × (length bytes ≡ sent.command_length)
      × (decode_pdu (bytes ++ more)
          ≡ ok (record pdu {
            command_length = sent.command_length;
            body = wire_body pdu;
            tlvs = none;
          }))
unfolding wire_body
decode_pdu-encode_pdu pdu more s fits =
    let sum : length (pdu.body ++ tlv_bytes pdu.tlvs)
        ≡ length pdu.body + length (tlv_bytes pdu.tlvs) =
      length-append pdu.body (tlv_bytes pdu.tlvs) in
    (
      record pdu { command_length = total pdu },
      wire_header (total pdu) pdu ++ wire_body pdu,
      encode_pdu-bytes pdu s,
      omega (arith, sum),
      rw append_assoc (
          decode_pdu-wire (total pdu) pdu (wire_body pdu) more (omega (arith, sum)) s.length_fits
            s.id_fits s.status_fits s.sequence_fits fits),
    )

-- The PDU as the receiver has it.
abbrev pub received : Pdu → Pdu
received pdu = record pdu {
  command_length = total pdu;
  body = pdu.body ++ tlv_bytes pdu.tlvs;
  tlvs = none;
}

abbrev wire : Pdu → List ℕ
wire pdu = wire_header (total pdu) pdu ++ wire_body pdu

wire-frame :
    (pdu : Pdu) (more : List ℕ)
    → IsSendable pdu
    → (length (wire pdu) ≡ total pdu)
      × (u32_at (wire pdu ++ more) 0 ≡ total pdu)
      × (decode_pdu (wire pdu) ≡ ok (received pdu))
unfolding wire_body
wire-frame pdu more s =
    let payload : List ℕ = wire_body pdu in
    let sum : length payload ≡ length pdu.body + length (tlv_bytes pdu.tlvs) =
      length-append pdu.body (tlv_bytes pdu.tlvs) in
    let size : total pdu ≡ 16 + length payload = omega (arith, sum) in
    let front : At (wire pdu ++ more) 0 (put_u32 (total pdu) ++ _) = At-start (wire pdu ++ more) in
    (
      omega (arith, size),
      u32_at-At _ _ _ _ _ front ∙ u32_of-put_u32 (total pdu) s.length_fits,
      ap (λ rest. decode_pdu (wire_header (total pdu) pdu ++ rest)) (sym (append-nil payload))
          ∙ decode_pdu-wire (total pdu) pdu payload [] size s.length_fits s.id_fits s.status_fits
              s.sequence_fits (omega (arith, s.length_fits)),
    )

-- What EncodePDU writes: as many bytes as the fields and the TLVs have, after 16 of the header; with
-- later bytes behind them they begin with their number, and alone they are decoded.
pub encode_pdu-frame :
    (pdu sent : Pdu) (bytes more : List ℕ)
    → IsSendable pdu
    → encode_pdu pdu ≡ some (sent, bytes)
    → (length bytes ≡ total pdu)
      × (u32_at (bytes ++ more) 0 ≡ total pdu)
      × (decode_pdu bytes ≡ ok (received pdu))
encode_pdu-frame pdu sent bytes more s e =
    let same : some (record pdu { command_length = total pdu }, wire pdu) ≡ some (sent, bytes) =
      sym (encode_pdu-bytes pdu s) ∙ e in
    let same_bytes : wire pdu ≡ bytes = cc same in
    subst
      (λ b.
        (length b ≡ total pdu)
        × (u32_at (b ++ more) 0 ≡ total pdu)
        × (decode_pdu b ≡ ok (received pdu)))
      same_bytes (wire-frame pdu more s)
