-- ===== src/Smpp/Examples.antt =====
-- Concrete runs of the theorems on the codecs of smpp/.
use go_smsc.Prelude.{
  ℕ, ◌+◌, ◌<◌, ◌≤◌, ◌^◌, ◌≡◌, ◌↔◌, ◌⊎◌, refl, List, [], ◌∷◌, ◌++◌, none, some, length, drop, All,
  ok, err, arith,
}
use go_smsc.Prelude.Bytes.{IsByte}
use go_smsc.Smpp.Receipts.{find_id, opens_id, word, is_space, translate_dlr_message_id}
use go_smsc.Smpp.Receipts.Translate.{NoSpace, find_id-translate}
use go_smsc.Smpp.Commands.{cmd_submit_sm, cmd_query_sm}
use go_smsc.Smpp.CString.Cursor.{NoNul}
use go_smsc.Smpp.Fields.{mandatory_body_len}
use go_smsc.Smpp.Fields.Layout.{Parses, query_layout}
use go_smsc.Smpp.Fields.Boundary.{layout_of, mandatory_body_len_sound, mandatory_body_len_complete}
use go_smsc.Smpp.Tlv.{
  TlvSet, TlvError, lookup, value_of, keys, insert_sorted, sort, put_entry, put_entries, encode,
  decode_tlvs,
}
use go_smsc.Smpp.Tlv.Wire.{wire, Fits}
use go_smsc.Smpp.Tlv.Total.{Outcome, decode_tlvs-total, decode_tlvs-err}
use go_smsc.Smpp.Tlv.RoundTrip.{decode_tlvs-encode}
use go_smsc.Smpp.Pdu.{Pdu, tlv_bytes, encode_pdu, decode_pdu, extract_tlvs}
use go_smsc.Smpp.Pdu.RoundTrip.{IsSendable, wire_body, decode_pdu-encode_pdu}
use go_smsc.Smpp.Pdu.Extract.{mandatory_body_len-append, extract_tlvs-sent}
use go_smsc.Smpp.Bodies.{Address, encode_submit_sm}
use go_smsc.Smpp.Coding.{
  position_of, unicode_to_gsm7, gsm7_len, detect_coding, data_coding_default, data_coding_ucs2,
}
use go_smsc.Smpp.Coding.Detect.{detect_coding-gsm7_char_count}
use go_smsc.Smpp.Segments.{gsm7_char_count, split_text_by_septets, split_rune_chunks}
use go_smsc.Smpp.Segments.Septets.{joined, FitsSeptets, split_text_by_septets-joined}
use go_smsc.Smpp.Segments.Chunks.{FitsRunes, split_rune_chunks-joined}

-- "Hi" and "49"
abbrev pub hi : List ℕ
hi = 72 ∷ 105 ∷ []

abbrev pub number : List ℕ
number = 52 ∷ 57 ∷ []

pub hi-NoNul : NoNul hi
hi-NoNul = (omega arith, (omega arith, tt))

pub number-NoNul : NoNul number
number-NoNul = (omega arith, (omega arith, tt))

abbrev pub sender : Address
sender = record { ton = 5; npi = 0; addr = hi }

abbrev pub receiver : Address
receiver = record { ton = 1; npi = 1; addr = number }

abbrev two_tlvs : TlvSet
two_tlvs = (1060, 7 ∷ 8 ∷ []) ∷ (5, 1 ∷ []) ∷ []

two_tlvs-Fits : All Fits two_tlvs
two_tlvs-Fits = ((omega arith, omega arith), ((omega arith, omega arith), tt))

-- query_sm with message id "Hi" and source "49"
abbrev query_body : List ℕ
query_body = hi ++ 0 ∷ 1 ∷ 1 ∷ (number ++ 0 ∷ [])

query_body-Parses : (rest : List ℕ) → Parses query_layout (query_body ++ rest) rest
query_body-Parses rest =
    (hi, _, hi-NoNul, refl, (1 ∷ 1 ∷ [], _, refl, refl, (number, _, number-NoNul, refl, refl)))

abbrev query : Pdu
query = record {
  command_length = 0;
  command_id = cmd_query_sm;
  command_status = 0;
  sequence_number = 9;
  body = query_body;
  tlvs = some two_tlvs;
}

two_tlvs-wire : tlv_bytes (some two_tlvs) ≡ 0 ∷ 5 ∷ 0 ∷ 1 ∷ 1 ∷ 4 ∷ 36 ∷ 0 ∷ 2 ∷ 7 ∷ 8 ∷ []
unfolding tlv_bytes encode keys sort insert_sorted put_entry put_entries value_of lookup
two_tlvs-wire = refl

query_room : 16 + length query.body + length (tlv_bytes query.tlvs) + length hi < 2 ^ 32
query_room = rw two_tlvs-wire (omega arith)

query-IsSendable : IsSendable query
query-IsSendable = record {
  id_fits = omega arith;
  status_fits = omega arith;
  sequence_fits = omega arith;
  length_fits = omega (arith, query_room);
}

extract_tlvs-sent_example :
    (sent : Pdu) × (bytes : List ℕ) × (got : Pdu) × (u : TlvSet) × (encode_pdu query
      ≡ some (sent, bytes))
    × (decode_pdu (bytes ++ hi) ≡ ok got)
    × (extract_tlvs got ≡ ok (some u))
    × ((k : ℕ) → lookup k u ≡ lookup k two_tlvs)
unfolding layout_of
extract_tlvs-sent_example =
    extract_tlvs-sent query query_layout two_tlvs hi refl refl tt (query_body-Parses [])
      two_tlvs-Fits query-IsSendable query_room

decode_pdu-encode_pdu_example :
    (sent : Pdu) × (bytes : List ℕ) × (encode_pdu query ≡ some (sent, bytes))
    × (length bytes ≡ sent.command_length)
    × (decode_pdu (bytes ++ hi)
        ≡ ok (record query {
          command_length = sent.command_length;
          body = wire_body query;
          tlvs = none;
        }))
decode_pdu-encode_pdu_example = decode_pdu-encode_pdu query hi query-IsSendable query_room

mandatory_body_len_sound_example :
    Parses query_layout (query_body ++ hi) (drop 8 (query_body ++ hi))
    × (8 ≤ length (query_body ++ hi))
unfolding layout_of
mandatory_body_len_sound_example =
    mandatory_body_len_sound cmd_query_sm query_layout (query_body ++ hi) 8 refl (
      mandatory_body_len-append cmd_query_sm query_layout query_body hi refl tt
        (query_body-Parses []))

mandatory_body_len_complete_example :
    (n : ℕ) × (mandatory_body_len cmd_query_sm (query_body ++ hi) ≡ some n)
    × (drop n (query_body ++ hi) ≡ hi)
    × (n + length hi ≡ length (query_body ++ hi))
unfolding layout_of
mandatory_body_len_complete_example =
    mandatory_body_len_complete cmd_query_sm query_layout (query_body ++ hi) hi refl
      (query_body-Parses hi)

decode_tlvs-encode_example :
    (u : TlvSet) × (decode_tlvs (encode two_tlvs) ≡ ok u)
    × ((k : ℕ) → lookup k u ≡ lookup k two_tlvs)
decode_tlvs-encode_example = decode_tlvs-encode two_tlvs two_tlvs-Fits

-- A value that is cut off.
abbrev cut_off : List ℕ
cut_off = 0 ∷ 5 ∷ 0 ∷ 2 ∷ 1 ∷ []

cut_off-IsByte : All IsByte cut_off
cut_off-IsByte = (omega arith, (omega arith, (omega arith, (omega arith, (omega arith, tt)))))

decode_tlvs-total_example : Outcome cut_off [] (decode_tlvs cut_off)
decode_tlvs-total_example = decode_tlvs-total cut_off cut_off-IsByte

decode_tlvs-err_example :
    ((e : TlvError) × (decode_tlvs cut_off ≡ err e))
    ↔ (¬ ((es : List (ℕ × List ℕ)) × All Fits es × (cut_off ≡ wire es)))
decode_tlvs-err_example = decode_tlvs-err cut_off cut_off-IsByte

abbrev submit : Pdu
submit = record query {
  command_id = cmd_submit_sm;
  body = encode_submit_sm sender receiver 3 0 8 1 hi;
  tlvs = none;
}

hi_septets : gsm7_char_count (hi ++ number) ≡ some 4
unfolding gsm7_char_count gsm7_len unicode_to_gsm7 position_of
hi_septets = refl

split_text_by_septets-joined_example :
    (parts : List (List ℕ)) × (split_text_by_septets (hi ++ number) 3 ≡ some parts)
    × (joined parts ≡ hi ++ number)
    × All (FitsSeptets 3) parts
split_text_by_septets-joined_example =
    split_text_by_septets-joined (hi ++ number) 3 4 (omega arith) hi_septets

split_rune_chunks-joined_example :
    (chunks : List (List ℕ)) × (split_rune_chunks (hi ++ number) 3 ≡ some chunks)
    × (joined chunks ≡ hi ++ number)
    × All (FitsRunes 3) chunks
split_rune_chunks-joined_example = split_rune_chunks-joined (hi ++ number) 3 (omega arith)

detect_coding-gsm7_char_count_example :
    ((detect_coding hi ≡ data_coding_default) × ((n : ℕ) × (gsm7_char_count hi ≡ some n)))
    ⊎ ((detect_coding hi ≡ data_coding_ucs2) × (gsm7_char_count hi ≡ none))
detect_coding-gsm7_char_count_example = detect_coding-gsm7_char_count hi

-- "id:S stat:X"
abbrev receipt_text : List ℕ
receipt_text = 105 ∷ 100 ∷ 58 ∷ 83 ∷ 32 ∷ 115 ∷ 116 ∷ 97 ∷ 116 ∷ 58 ∷ 88 ∷ []

receipt_id : find_id receipt_text ≡ some (83 ∷ [])
unfolding find_id opens_id word is_space
receipt_id = refl

gw_NoSpace : NoSpace (71 ∷ 49 ∷ [])
unfolding is_space
gw_NoSpace = (refl, (refl, tt))

find_id-translate_example :
    find_id (translate_dlr_message_id receipt_text (83 ∷ []) (71 ∷ 49 ∷ [])) ≡ some (71 ∷ 49 ∷ [])
find_id-translate_example =
    find_id-translate receipt_text (83 ∷ []) (71 ∷ 49 ∷ []) receipt_id gw_NoSpace (ground arith)
