-- ===== src/Smpp/CString.antt =====
-- NUL-terminated strings inside a byte slice: ReadCString, writeCString and WriteCStringBytes of
-- smpp/pdu.go, and skipCString of smpp/pdu_fields.go. A Go string is its list of bytes.
pub mod Cursor
use go_smsc.Prelude.{
  ℕ, ◌+◌, ◌≡◌, Bool, List, [], ◌∷◌, ◌++◌, Option, none, some, ltb, leb, ◌==◌, if◌then◌else◌, length,
  drop, slice,
}

-- `for end < len(data) && data[end] != 0x00 { end++ }`; the list is data[end:].
unfoldable pub c_string_end : List ℕ → ℕ → ℕ
c_string_end [] end = end
c_string_end (b ∷ rest) end = if b == 0 then end else c_string_end rest (end + 1)

-- The text, and the offset behind its terminator.
unfoldable pub read_c_string : List ℕ → ℕ → List ℕ × ℕ
read_c_string body offset =
    let end = c_string_end (drop offset body) offset in
    if leb (length body) offset
    then ([], offset)
    else (slice body offset end, if ltb end (length body) then end + 1 else end)

-- A slice of `len(s)+1` zero bytes, with `s` copied to its front.
unfoldable pub write_c_string_bytes : List ℕ → List ℕ
write_c_string_bytes s = s ++ 0 ∷ []

-- `for i := offset; i < n; i++`; the list is body[i:].
unfoldable pub skip_loop : List ℕ → ℕ → Option ℕ
skip_loop [] i = none
skip_loop (b ∷ rest) i = if b == 0 then some (i + 1) else skip_loop rest (i + 1)

-- The offset behind the terminator; `none` is the source's -1.
unfoldable pub skip_c_string : List ℕ → ℕ → Option ℕ
skip_c_string body offset =
    if leb (length body) offset then none else skip_loop (drop offset body) offset
