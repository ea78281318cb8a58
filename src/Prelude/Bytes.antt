-- ===== src/Prelude/Bytes.antt =====
-- Big-endian numbers in byte lists: `encoding/binary.BigEndian` of Go's standard library.
use Prim.Native.Nat.{ℕ, zero, suc, ◌+◌, ◌*◌, ◌/◌, ◌%◌, ◌^◌, ◌<◌}
use mathlib.Core.Path.{◌≡◌}
use mathlib.Core.List.{List, [], ◌∷◌}
use native.Mathlib.Omega.{arith}

abbrev pub IsByte : ℕ → Type 0
IsByte b = b < 256

-- The two bytes of `PutUint16`.
abbrev pub put_u16 : ℕ → List ℕ
put_u16 n = (n / 256 % 256) ∷ (n % 256) ∷ []

-- The four bytes of `PutUint32`.
abbrev pub put_u32 : ℕ → List ℕ
put_u32 n = (n / 16777216 % 256) ∷ (n / 65536 % 256) ∷ (n / 256 % 256) ∷ (n % 256) ∷ []

-- `Uint16` and `Uint32` on the bytes at hand.
abbrev pub u16_of : ℕ → ℕ → ℕ
u16_of a b = a * 256 + b

abbrev pub u32_of : ℕ → ℕ → ℕ → ℕ → ℕ
u32_of a b c d = a * 16777216 + b * 65536 + c * 256 + d

pub u16_of-put_u16 : (n : ℕ) → n < 2 ^ 16 → u16_of (n / 256 % 256) (n % 256) ≡ n
u16_of-put_u16 n h = omega arith

pub u32_of-put_u32 :
    (n : ℕ)
    → n < 2 ^ 32
    → u32_of (n / 16777216 % 256) (n / 65536 % 256) (n / 256 % 256) (n % 256) ≡ n
u32_of-put_u32 n h = omega arith

-- `data[i]` where the code has checked that `i < len(data)`.
abbrev pub byte_at : List ℕ → ℕ → ℕ
byte_at [] i = 0
byte_at (b ∷ bs) zero = b
byte_at (b ∷ bs) (suc i) = byte_at bs i

-- `binary.BigEndian.Uint16(data[i:i+2])` and `Uint32(data[i:i+4])`, likewise.
unfoldable pub u16_at : List ℕ → ℕ → ℕ
u16_at bs i = u16_of (byte_at bs i) (byte_at bs (i + 1))

unfoldable pub u32_at : List ℕ → ℕ → ℕ
u32_at bs i = u32_of (byte_at bs i) (byte_at bs (i + 1)) (byte_at bs (i + 2)) (byte_at bs (i + 3))
