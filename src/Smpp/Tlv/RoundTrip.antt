-- ===== src/Smpp/Tlv/RoundTrip.antt =====
-- DecodeTLVs reads back what Encode wrote.
use go_smsc.Prelude.{
  ℕ, ◌^◌, ◌<◌, ◌≡◌, refl, ◌∙◌, List, [], ◌∷◌, map, none, some, if◌then◌else◌, length, All, ok,
  arith,
}
use go_smsc.Prelude.{==_refl, append-nil, ◌++◌}
use go_smsc.Prelude.Bytes.{put_u16}
use go_smsc.Smpp.Tlv.{put_entry}
use go_smsc.Smpp.Tlv.Map.{lookup-insert}
use go_smsc.Smpp.Tlv.Sorted.{member, member-sort, member-keys}
use go_smsc.Smpp.Tlv.Wire.{wire, set_all, Fits, decode_tlvs-wire}
use go_smsc.Smpp.Tlv.{
  TlvSet, lookup, insert, has, value_of, keys, insert_sorted, sort, put_entries, encode,
  decode_tlvs,
}

entries : TlvSet → List ℕ → List (ℕ × List ℕ)
entries t tags = map (λ k. (k, value_of t k)) tags

put_entries-wire : (t : TlvSet) (tags : List ℕ) → put_entries t tags ≡ wire (entries t tags)
unfolding put_entries entries wire
put_entries-wire t [] = refl
put_entries-wire t (k ∷ tags) = rw (put_entries-wire t tags)

encode-wire : (t : TlvSet) → encode t ≡ wire (entries t (sort (keys t)))
unfolding encode
encode-wire t = put_entries-wire t (sort (keys t))

lookup-set_all :
    (t u : TlvSet) (tags : List ℕ) (k : ℕ)
    → lookup k (set_all u (entries t tags))
      ≡ (if member k tags then some (value_of t k) else lookup k u)
unfolding entries set_all member
lookup-set_all t u [] k = refl
lookup-set_all t u (tag ∷ tags) k =
    lookup-set_all t (insert tag (value_of t tag) u) tags k
    ∙ rw (lookup-insert tag k (value_of t tag) u) (ground arith)

value_of-Fits : (t : TlvSet) (k : ℕ) → All Fits t → length (value_of t k) < 2 ^ 16
unfolding value_of lookup
value_of-Fits [] k h = omega arith
value_of-Fits ((j, v) ∷ t) k h = ground (arith, value_of-Fits t k h.1)

abbrev IsTag : ℕ → Type 0
IsTag k = k < 2 ^ 16

All-insert_sorted : (x : ℕ) (ys : List ℕ) → IsTag x → All IsTag ys → All IsTag (insert_sorted x ys)
unfolding insert_sorted
All-insert_sorted x [] h a = (h, tt)
All-insert_sorted x (y ∷ ys) h a = ground (arith, All-insert_sorted x ys h a.1)

All-sort : (t : TlvSet) → All Fits t → All IsTag (sort (keys t))
unfolding sort keys
All-sort [] h = tt
All-sort ((k, v) ∷ t) h = All-insert_sorted k (sort (keys t)) h.0.0 (All-sort t h.1)

entries-Fits :
    (t : TlvSet) (tags : List ℕ) → All Fits t → All IsTag tags → All Fits (entries t tags)
unfolding entries
entries-Fits t [] h a = tt
entries-Fits t (k ∷ tags) h a = ((a.0, value_of-Fits t k h), entries-Fits t tags h a.1)

lookup_from_parts :
    (t : TlvSet) (k : ℕ) → (if has t k then some (value_of t k) else none) ≡ lookup k t
unfolding has value_of
lookup_from_parts t k = ground arith

-- DecodeTLVs accepts what Encode wrote for a set whose tags and lengths fit 16 bits, and the set it
-- returns holds the same value, or none, under every tag.
pub decode_tlvs-encode :
    (t : TlvSet)
    → All Fits t
    → (u : TlvSet) × (decode_tlvs (encode t) ≡ ok u) × ((k : ℕ) → lookup k u ≡ lookup k t)
unfolding lookup
decode_tlvs-encode t h =
    let es = entries t (sort (keys t)) in
    (
      set_all [] es,
      rw (encode-wire t) (decode_tlvs-wire es (entries-Fits t (sort (keys t)) h (All-sort t h))),
      λ k.
          lookup-set_all t [] (sort (keys t)) k
          ∙ rw (member-sort k (keys t), member-keys k t) (lookup_from_parts t k),
    )

-- The bytes of the sets with no entry and with one.
pub encode-nil : encode [] ≡ []
unfolding encode
encode-nil = refl

pub encode-singleton :
    (tag : ℕ) (v : List ℕ) → encode ((tag, v) ∷ []) ≡ put_u16 tag ++ (put_u16 (length v) ++ v)
unfolding encode put_entry value_of lookup
encode-singleton tag v =
    let same : value_of ((tag, v) ∷ []) tag ≡ v = rw (==_refl tag, value_of) in
    rw (same, append-nil)
