-- ===== src/Smpp/Tlv/Map.antt =====
-- A TLV set as a map: the laws of lookup after insertion, and of the typed getters after setters.
use go_smsc.Prelude.{
  ℕ, ◌^◌, ◌<◌, ◌≡◌, refl, ap, List, [], ◌∷◌, some, ◌==◌, if◌then◌else◌, ==_refl, arith,
}
use go_smsc.Prelude.Bytes.{put_u16, put_u32, u16_of-put_u16, u32_of-put_u32, u16_at, u32_at}
use go_smsc.Smpp.Tlv.{
  TlvSet, lookup, insert, get_uint8, get_uint16, get_uint32, get_bytes, set_uint8, set_uint16,
  set_uint32, set_bytes,
}

pub lookup-insert :
    (tag k : ℕ) (v : List ℕ) (t : TlvSet)
    → lookup k (insert tag v t) ≡ (if tag == k then some v else lookup k t)
unfolding lookup insert
lookup-insert tag k v [] = refl
lookup-insert tag k v ((j, w) ∷ t) = ground (arith, lookup-insert tag k v t)

-- A typed getter returns what the setter of its type stored under a tag, whatever the set held,
-- for numbers in the range of their type, and a setter leaves the values of all other tags alone.
pub getters-setters :
    (t : TlvSet) (tag k a b c : ℕ) (v : List ℕ)
    → a < 2 ^ 8
    → b < 2 ^ 16
    → c < 2 ^ 32
    → (get_uint8 (set_uint8 t tag a) tag ≡ some a)
      × (get_uint16 (set_uint16 t tag b) tag ≡ some b)
      × (get_uint32 (set_uint32 t tag c) tag ≡ some c)
      × (get_bytes (set_bytes t tag v) tag ≡ some v)
      × (get_bytes (set_bytes t tag v) k ≡ (if tag == k then some v else get_bytes t k))
unfolding get_uint8 get_uint16 get_uint32 get_bytes set_uint8 set_uint16 set_uint32 set_bytes u16_at
    u32_at
getters-setters t tag k a b c v ha hb hc = (
  rw (lookup-insert tag tag (a ∷ []) t, ==_refl tag),
  rw (lookup-insert tag tag (put_u16 b) t, ==_refl tag) (ap some (u16_of-put_u16 b hb)),
  rw (lookup-insert tag tag (put_u32 c) t, ==_refl tag) (ap some (u32_of-put_u32 c hc)),
  rw (lookup-insert tag tag v t, ==_refl tag),
  lookup-insert tag k v t,
)
