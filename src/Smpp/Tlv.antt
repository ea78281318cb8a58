-- ===== src/Smpp/Tlv.antt =====
-- TLVSet and DecodeTLVs of smpp/tlv.go. A set is the list of its tags with their values, in any
-- order, as Go's map iterates in any order.
pub mod Map
pub mod Sorted
pub mod Wire
pub mod Total
pub mod RoundTrip
use go_smsc.Prelude.{
  ℕ, zero, suc, ◌+◌, ◌-◌, ◌≡◌, Bool, true, false, List, [], ◌∷◌, ◌++◌, map, Option, none, some, ltb,
  leb, ◌==◌, if◌then◌else◌, length, take, slice, Result, ok, err, stuck,
}
use go_smsc.Prelude.Bytes.{put_u16, put_u32, byte_at, u16_at, u32_at}

abbrev pub TlvSet : Type 0
TlvSet = List (ℕ × List ℕ)

pub data TlvError : Type 0 where
  truncated_header truncated_value : TlvError

-- `v, ok := t[tag]`
unfoldable pub lookup : ℕ → TlvSet → Option (List ℕ)
lookup tag [] = none
lookup tag ((k, v) ∷ t) = if k == tag then some v else lookup tag t

-- `t[tag] = v`
pub insert : ℕ → List ℕ → TlvSet → TlvSet
insert tag v [] = (tag, v) ∷ []
insert tag v ((k, w) ∷ t) = if k == tag then (tag, v) ∷ t else (k, w) ∷ insert tag v t

-- `t[tag]`, which is nil where the tag is absent.
unfoldable pub value_of : TlvSet → ℕ → List ℕ
value_of t tag = elim (lookup tag t) [ none ↦ [] | some v ↦ v ]

unfoldable pub has : TlvSet → ℕ → Bool
has t tag = elim (lookup tag t) [ none ↦ false | some v ↦ true ]

-- The getters; `none` is the source's `false`.
sized : ℕ → Option (List ℕ) → (List ℕ → ℕ) → Option ℕ
sized n none read = none
sized n (some v) read = if length v == n then some (read v) else none

pub get_uint8 : TlvSet → ℕ → Option ℕ
unfolding sized
get_uint8 t tag = sized 1 (lookup tag t) (λ v. byte_at v 0)

pub get_uint16 : TlvSet → ℕ → Option ℕ
unfolding sized
get_uint16 t tag = sized 2 (lookup tag t) (λ v. u16_at v 0)

pub get_uint32 : TlvSet → ℕ → Option ℕ
unfolding sized
get_uint32 t tag = sized 4 (lookup tag t) (λ v. u32_at v 0)

-- `string(v[:len(v)-1])` where the last byte is NUL, else the whole.
strip_nul : List ℕ → List ℕ
strip_nul v =
    if ltb 0 (length v)
    then if byte_at v (length v - 1) == 0 then take (length v - 1) v else v
    else v

pub get_string : TlvSet → ℕ → Option (List ℕ)
unfolding strip_nul
get_string t tag = elim (lookup tag t) [ none ↦ none | some v ↦ some (strip_nul v) ]

pub get_bytes : TlvSet → ℕ → Option (List ℕ)
get_bytes t tag = lookup tag t

pub set_uint8 : TlvSet → ℕ → ℕ → TlvSet
set_uint8 t tag v = insert tag (v ∷ []) t

pub set_uint16 : TlvSet → ℕ → ℕ → TlvSet
set_uint16 t tag v = insert tag (put_u16 v) t

pub set_uint32 : TlvSet → ℕ → ℕ → TlvSet
set_uint32 t tag v = insert tag (put_u32 v) t

pub set_string : TlvSet → ℕ → List ℕ → TlvSet
set_string t tag v = insert tag v t

pub set_bytes : TlvSet → ℕ → List ℕ → TlvSet
set_bytes t tag v = insert tag v t

-- `for tag := range t { tags = append(tags, tag) }`
unfoldable pub keys : TlvSet → List ℕ
keys t = map (λ e. e.0) t

-- `sort.Slice(tags, ...)` by `<`: the tags are distinct, so every sort gives the same list.
unfoldable pub insert_sorted : ℕ → List ℕ → List ℕ
insert_sorted x [] = x ∷ []
insert_sorted x (y ∷ ys) = if leb x y then x ∷ y ∷ ys else y ∷ insert_sorted x ys

unfoldable pub sort : List ℕ → List ℕ
unfolding insert_sorted
sort [] = []
sort (x ∷ xs) = insert_sorted x (sort xs)

-- One round of the loop that fills the buffer: PutUint16(tag), PutUint16(uint16(len(v))), copy.
unfoldable pub put_entry : ℕ → List ℕ → List ℕ
put_entry tag v = put_u16 tag ++ put_u16 (length v) ++ v

unfoldable pub put_entries : TlvSet → List ℕ → List ℕ
unfolding put_entry value_of
put_entries t [] = []
put_entries t (tag ∷ tags) = put_entry tag (value_of t tag) ++ put_entries t tags

-- An empty set gives no bytes, as nil does.
unfoldable pub encode : TlvSet → List ℕ
unfolding keys sort put_entries
encode t = put_entries t (sort (keys t))

-- `for offset < len(data)`; a round consumes four bytes at least.
pub decode_loop : ℕ → List ℕ → ℕ → TlvSet → Result TlvError TlvSet
unfolding u16_at insert
decode_loop zero body offset t = stuck
decode_loop (suc fuel) body offset t =
    let tag = u16_at body offset in
    let len = u16_at body (offset + 2) in
    let value = slice body (offset + 4) (offset + 4 + len) in
    let rest = decode_loop fuel body (offset + 4 + len) (insert tag value t) in
    if leb (length body) offset
    then ok t
    else if ltb (length body) (offset + 4)
    then err truncated_header
    else if ltb (length body) (offset + 4 + len)
    then err truncated_value
    else rest

pub decode_tlvs : List ℕ → Result TlvError TlvSet
unfolding decode_loop
decode_tlvs body = decode_loop (length body + 1) body 0 []
