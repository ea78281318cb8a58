-- ===== src/Smpp/Tlv/Total.antt =====
-- DecodeTLVs on any bytes: an answer always, and acceptance only of a stream of TLVs.
use go_smsc.Prelude.{
  ℕ, zero, suc, ◌+◌, ◌*◌, ◌/◌, ◌%◌, ◌<◌, ◌≡◌, refl, ap, subst, ◌∙◌, List, [], ◌∷◌, ◌++◌, leb,
  Bool-cases, ◌↔◌, ◌⊎◌, inl, inr, length, take, drop, All, length-take, length-drop,
  take-append-drop, Result, ok, err, arith,
}
use go_smsc.Prelude.Bytes.{IsByte, put_u16, u16_of}
use go_smsc.Smpp.CString.Cursor.{At, At-start, At-append, u16_at-At}
use go_smsc.Smpp.Tlv.Wire.{wire, set_all, Fits, decode_entry, past_entry, decode_tlvs-wire}
use go_smsc.Smpp.Tlv.{
  TlvSet, TlvError, truncated_header, truncated_value, insert, put_entry, decode_loop, decode_tlvs,
}

put_u16-u16_of : (a b : ℕ) → IsByte a → IsByte b → put_u16 (u16_of a b) ≡ a ∷ b ∷ []
put_u16-u16_of a b ha hb =
    let hi : (a * 256 + b) / 256 % 256 ≡ a = omega arith in
    let lo : (a * 256 + b) % 256 ≡ b = omega arith in rw (hi, lo)

-- Four bytes and as many as the last two say are an entry.
entry_of :
    (a b c d : ℕ) (v : List ℕ)
    → IsByte a
    → IsByte b
    → IsByte c
    → IsByte d
    → length v ≡ u16_of c d
    → put_entry (u16_of a b) v ≡ a ∷ b ∷ c ∷ d ∷ v
unfolding put_entry
entry_of a b c d v ha hb hc hd e =
    ground (arith, e, put_u16-u16_of a b ha hb, put_u16-u16_of c d hc hd)

All-drop : (n : ℕ) (xs : List ℕ) → All IsByte xs → All IsByte (drop n xs)
All-drop zero xs h = h
All-drop (suc n) [] h = h
All-drop (suc n) (x ∷ xs) h = All-drop n xs h.1

-- `body` from `offset` on is a stream that is stored, or an error is returned.
abbrev pub Outcome : List ℕ → TlvSet → Result TlvError TlvSet → Type 0
Outcome here t r =
    ((es : List (ℕ × List ℕ)) × (here ≡ wire es) × All Fits es × (r ≡ ok (set_all t es)))
    ⊎ ((e : TlvError) × (r ≡ err e))

short_header :
    (fuel : ℕ) (body here : List ℕ) (offset : ℕ) (t : TlvSet)
    → At body offset here
    → 0 < length here
    → length here < 4
    → decode_loop (suc fuel) body offset t ≡ err truncated_header
unfolding decode_loop
short_header fuel body here offset t a lo hi = ground (arith, a.room)

short_value :
    (fuel a b c d : ℕ) (rest body : List ℕ) (offset : ℕ) (t : TlvSet)
    → At body offset (a ∷ b ∷ c ∷ d ∷ rest)
    → length rest < u16_of c d
    → decode_loop (suc fuel) body offset t ≡ err truncated_value
unfolding decode_loop
short_value fuel a b c d rest body offset t at h =
    let at2 : At body (offset + 2) (c ∷ d ∷ rest) = At-append (a ∷ b ∷ []) at in
    rw (u16_at-At c d rest at2) (ground (arith, at.room))

-- An entry in front of a stream, or of what is no stream.
extend-Outcome :
    (tag : ℕ) (v here more : List ℕ) (t : TlvSet) (r q : Result TlvError TlvSet)
    → Fits (tag, v)
    → here ≡ put_entry tag v ++ more
    → r ≡ q
    → Outcome more (insert tag v t) q
    → Outcome here t r
unfolding wire set_all
extend-Outcome tag v here more t r q fit split step (inl (es, e, fits, o)) =
    inl ((tag, v) ∷ es, rw (split, e), (fit, fits), step ∙ o)
extend-Outcome tag v here more t r q fit split step (inr (x, o)) = inr (x, step ∙ o)

decode_loop-Outcome :
    (fuel : ℕ) (here body : List ℕ) (offset : ℕ) (t : TlvSet)
    → At body offset here
    → All IsByte here
    → length here < fuel
    → Outcome here t (decode_loop fuel body offset t)
unfolding wire set_all
decode_loop-Outcome zero here body offset t at h f = absurd (omega arith)
decode_loop-Outcome (suc fuel) [] body offset t at h f =
    inl ([], refl, tt, unfold decode_loop in ground (arith, at.room))
decode_loop-Outcome (suc fuel) (a ∷ []) body offset t at h f =
    inr (truncated_header, short_header fuel body _ offset t at (omega arith) (omega arith))
decode_loop-Outcome (suc fuel) (a ∷ b ∷ []) body offset t at h f =
    inr (truncated_header, short_header fuel body _ offset t at (omega arith) (omega arith))
decode_loop-Outcome (suc fuel) (a ∷ b ∷ c ∷ []) body offset t at h f =
    inr (truncated_header, short_header fuel body _ offset t at (omega arith) (omega arith))
decode_loop-Outcome (suc fuel) (a ∷ b ∷ c ∷ d ∷ rest) body offset t at (ha, (hb, (hc, (hd, h)))) f =
    elim (Bool-cases (leb (u16_of c d) (length rest))) [
      | inl fits ↦
          let v = take (u16_of c d) rest in
          let more = drop (u16_of c d) rest in
          let size : length v ≡ u16_of c d = ground (arith, length-take (u16_of c d) rest) in
          let split : a ∷ b ∷ c ∷ d ∷ rest ≡ put_entry (u16_of a b) v ++ more =
            rw (entry_of a b c d v ha hb hc hd size, take-append-drop (u16_of c d) rest) in
          let at' = subst (At body offset) split at in
          let fit : Fits (u16_of a b, v) = (omega arith, omega (arith, size)) in
          let step = decode_entry fuel (u16_of a b) v more body offset t at' fit in
          let left : length more < fuel = omega (arith, f, length-drop (u16_of c d) rest) in
          extend-Outcome (u16_of a b) v _ more t _ _ fit split step (
            decode_loop-Outcome fuel more body (offset + 4 + length v) (insert (u16_of a b) v t)
              (past_entry (u16_of a b) v at') (All-drop (u16_of c d) rest h) left)
      | inr lacks ↦
          inr (truncated_value, short_value fuel a b c d rest body offset t at (ground arith))
    ]

-- On any bytes DecodeTLVs returns: either the bytes are a stream of TLVs whose tags and value
-- lengths fit 16 bits, and it stores them in order, or it reports an error. In particular its loop
-- ends.
pub decode_tlvs-total : (body : List ℕ) → All IsByte body → Outcome body [] (decode_tlvs body)
unfolding decode_tlvs
decode_tlvs-total body h =
    decode_loop-Outcome (length body + 1) body body 0 [] (At-start body) h (omega arith)

-- DecodeTLVs reports an error exactly where the bytes are no stream of TLVs whose tags and value
-- lengths fit 16 bits.
pub decode_tlvs-err :
    (body : List ℕ)
    → All IsByte body
    → ((e : TlvError) × (decode_tlvs body ≡ err e))
      ↔ (¬ ((es : List (ℕ × List ℕ)) × All Fits es × (body ≡ wire es)))
decode_tlvs-err body h = (
  λ (e, bad) (es, fits, same). cc (decode_tlvs-wire es fits, ap decode_tlvs same, bad),
  λ none_fits. elim (decode_tlvs-total body h) [
    | inl (es, same, fits, o) ↦ absurd (none_fits (es, fits, same))
    | inr bad ↦ bad
  ],
)
