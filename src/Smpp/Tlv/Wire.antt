-- ===== src/Smpp/Tlv/Wire.antt =====
-- DecodeTLVs on any input: what it accepts, what it makes of it, and that its loop ends.
use go_smsc.Prelude.{
  ℕ, zero, suc, ◌+◌, ◌^◌, ◌<◌, ◌≡◌, subst, ◌∙◌, List, [], ◌∷◌, ◌++◌, length, length-append, All, ok,
  arith,
}
use go_smsc.Prelude.Bytes.{put_u16, u16_of-put_u16, u16_at}
use go_smsc.Smpp.CString.Cursor.{At, At-start, At-append, u16_at-At, slice-At}
use go_smsc.Smpp.Tlv.{TlvSet, insert, put_entry, decode_loop, decode_tlvs}

-- Entries one behind the other, in the order given.
unfoldable pub wire : List (ℕ × List ℕ) → List ℕ
wire [] = []
wire ((tag, v) ∷ es) = put_entry tag v ++ wire es

-- What storing them in turn leaves: the last entry of a tag wins.
unfoldable pub set_all : TlvSet → List (ℕ × List ℕ) → TlvSet
set_all t [] = t
set_all t ((tag, v) ∷ es) = set_all (insert tag v t) es

-- The tag and the length fit their 16 bits.
abbrev pub Fits : ℕ × List ℕ → Type 0
Fits (tag, v) = (tag < 2 ^ 16) × (length v < 2 ^ 16)

length-put_entry : (tag : ℕ) (v : List ℕ) → length (put_entry tag v) ≡ 4 + length v
unfolding put_entry
length-put_entry tag v = omega arith

-- One round on an entry that is there in full.
pub decode_entry :
    (fuel tag : ℕ) (v rest body : List ℕ) (offset : ℕ) (t : TlvSet)
    → At body offset (put_entry tag v ++ rest)
    → Fits (tag, v)
    → decode_loop (suc fuel) body offset t
      ≡ decode_loop fuel body (offset + 4 + length v) (insert tag v t)
unfolding decode_loop put_entry
decode_entry fuel tag v rest body offset t a (ht, hv) =
    let at2 : At body (offset + 2) (put_u16 (length v) ++ (v ++ rest)) =
      At-append (put_u16 tag) a in
    let at4 : At body (offset + 4) (v ++ rest) = At-append (put_u16 tag ++ put_u16 (length v)) a in
    let the_tag : u16_at body offset ≡ tag = u16_at-At _ _ _ a ∙ u16_of-put_u16 tag ht in
    let the_len : u16_at body (offset + 2) ≡ length v =
      u16_at-At _ _ _ at2 ∙ u16_of-put_u16 (length v) hv in
    rw (the_tag, the_len, slice-At v rest at4) (ground (arith, at4.room, length-append v rest))

pub past_entry :
    (tag : ℕ) (v : List ℕ) {rest body : List ℕ} {offset : ℕ}
    → At body offset (put_entry tag v ++ rest)
    → At body (offset + 4 + length v) rest
past_entry tag v {rest} {body} {offset} a =
    let e : offset + length (put_entry tag v) ≡ offset + 4 + length v =
      omega (arith, length-put_entry tag v) in
    subst (λ n. At body n rest) e (At-append (put_entry tag v) a)

pub decode_loop-wire :
    (es : List (ℕ × List ℕ)) (fuel : ℕ) (body : List ℕ) (offset : ℕ) (t : TlvSet)
    → At body offset (wire es)
    → All Fits es
    → length (wire es) < fuel
    → decode_loop fuel body offset t ≡ ok (set_all t es)
unfolding wire set_all
decode_loop-wire es zero body offset t a h f = absurd (omega arith)
decode_loop-wire [] (suc fuel) body offset t a h f = unfold decode_loop in ground (arith, a.room)
decode_loop-wire ((tag, v) ∷ es) (suc fuel) body offset t a h f =
    decode_entry fuel tag v (wire es) body offset t a h.0
    ∙ decode_loop-wire es fuel body (offset + 4 + length v) (insert tag v t) (past_entry tag v a)
        h.1 (omega (arith, length-append (put_entry tag v) (wire es), length-put_entry tag v))

-- DecodeTLVs accepts every stream of TLVs whose tags and value lengths fit 16 bits, and stores the
-- values in the order of the stream, so that a later value of a tag replaces an earlier one.
pub decode_tlvs-wire :
    (es : List (ℕ × List ℕ)) → All Fits es → decode_tlvs (wire es) ≡ ok (set_all [] es)
unfolding decode_tlvs
decode_tlvs-wire es h = decode_loop-wire es _ (wire es) 0 [] (At-start (wire es)) h (omega arith)
