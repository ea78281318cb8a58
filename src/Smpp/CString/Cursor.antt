-- ===== src/Smpp/CString/Cursor.antt =====
-- What the string readers do where a byte slice, from an offset on, is known.
use go_smsc.Prelude.{
  ℕ, zero, suc, ◌+◌, ◌-◌, ◌≤◌, ◌≡◌, refl, sym, ap, ◌∙◌, ◌≢◌, List, [], ◌∷◌, ◌++◌, some, length,
  drop, get_elem?, All, length-append, length-drop, drop-append, drop-drop, take-append, arith,
}
use go_smsc.Prelude.{slice}
use go_smsc.Prelude.Bytes.{byte_at, u16_at, u32_at, u16_of, u32_of}
use go_smsc.Smpp.CString.{c_string_end, read_c_string, skip_loop, skip_c_string}

-- No byte is NUL: what a Go string must satisfy to be carried as a C-string.
abbrev pub NoNul : List ℕ → Type 0
NoNul = All (λ b. b ≢ 0)

-- From `offset` on, `body` holds `rest`.
pub record At (body : List ℕ) (offset : ℕ) (rest : List ℕ) : Type 0 where
  pub tail : drop offset body ≡ rest
  pub room : offset + length rest ≡ length body

pub At-start : (body : List ℕ) → At body 0 body
At-start body = record { tail = refl; room = omega arith }

pub At-drop :
    (body : List ℕ) (offset : ℕ) → offset ≤ length body → At body offset (drop offset body)
At-drop body offset h = record { tail = refl; room = omega (arith, length-drop offset body) }

pub At-append :
    (front : List ℕ) {body rest : List ℕ} {offset : ℕ}
    → At body offset (front ++ rest)
    → At body (offset + length front) rest
At-append front {body} {rest} {offset} a = record {
  tail = sym (drop-drop (length front) offset body) ∙ rw a.tail (drop-append front rest);
  room = omega (arith, a.room, length-append front rest);
}

pub At-next :
    {body rest : List ℕ} {b offset : ℕ} → At body offset (b ∷ rest) → At body (offset + 1) rest
At-next {b = b} a = At-append (b ∷ []) a

get_elem?-drop :
    (body : List ℕ) (offset : ℕ) {b : ℕ} {rest : List ℕ}
    → drop offset body ≡ b ∷ rest
    → get_elem? body offset ≡ some b
get_elem?-drop [] zero e = cc
get_elem?-drop [] (suc n) e = cc
get_elem?-drop (x ∷ xs) zero e = ground arith
get_elem?-drop (x ∷ xs) (suc n) e = get_elem?-drop xs n e

pub get_elem?-At :
    {body rest : List ℕ} {b offset : ℕ} → At body offset (b ∷ rest) → get_elem? body offset ≡ some b
get_elem?-At {body} {offset = offset} a = get_elem?-drop body offset a.tail

skip_loop-found :
    (s rest : List ℕ) (i : ℕ) → NoNul s → skip_loop (s ++ 0 ∷ rest) i ≡ some (i + length s + 1)
unfolding skip_loop
skip_loop-found [] rest i h = ap some (omega arith)
skip_loop-found (b ∷ s) rest i h = ground (arith, skip_loop-found s rest (i + 1) h.1)

pub skip_c_string-At :
    (s rest : List ℕ) {body : List ℕ} {offset : ℕ}
    → At body offset (s ++ 0 ∷ rest)
    → NoNul s
    → skip_c_string body offset ≡ some (offset + length s + 1)
unfolding skip_c_string
skip_c_string-At s rest {body} {offset} a h =
    ground (arith, a.room, a.tail, length-append s (0 ∷ rest), skip_loop-found s rest offset h)

c_string_end-found :
    (s rest : List ℕ) (i : ℕ) → NoNul s → c_string_end (s ++ 0 ∷ rest) i ≡ i + length s
unfolding c_string_end
c_string_end-found [] rest i h = omega arith
c_string_end-found (b ∷ s) rest i h = ground (arith, c_string_end-found s rest (i + 1) h.1)

pub read_c_string-At :
    (s rest : List ℕ) {body : List ℕ} {offset : ℕ}
    → At body offset (s ++ 0 ∷ rest)
    → NoNul s
    → read_c_string body offset ≡ (s, offset + length s + 1)
unfolding read_c_string
read_c_string-At s rest {body} {offset} a h =
    rw (a.tail, c_string_end-found s rest offset h)
      (ground
        (arith, a.room, length-append s (0 ∷ rest), sub_add offset s, take-append s (0 ∷ rest)))
  where
    sub_add : (n : ℕ) (t : List ℕ) → n + length t - n ≡ length t
    sub_add n t = omega arith

-- The tail behind the terminator.
pub At-c_string :
    (s : List ℕ) {body rest : List ℕ} {offset : ℕ}
    → At body offset (s ++ 0 ∷ rest)
    → At body (offset + length s + 1) rest
At-c_string s a = At-next (At-append s a)

byte_at-drop :
    (body : List ℕ) (offset : ℕ) (b : ℕ) (rest : List ℕ)
    → drop offset body ≡ b ∷ rest
    → byte_at body offset ≡ b
byte_at-drop [] zero b rest e = cc
byte_at-drop [] (suc n) b rest e = cc
byte_at-drop (x ∷ xs) zero b rest e = ground arith
byte_at-drop (x ∷ xs) (suc n) b rest e = byte_at-drop xs n b rest e

pub byte_at-At :
    (b : ℕ) (rest : List ℕ) {body : List ℕ} {offset : ℕ}
    → At body offset (b ∷ rest)
    → byte_at body offset ≡ b
byte_at-At b rest {body} {offset} a = byte_at-drop body offset b rest a.tail

pub u16_at-At :
    (a b : ℕ) (rest : List ℕ) {body : List ℕ} {offset : ℕ}
    → At body offset (a ∷ b ∷ rest)
    → u16_at body offset ≡ u16_of a b
unfolding u16_at
u16_at-At a b rest at = rw (byte_at-At a (b ∷ rest) at, byte_at-At b rest (At-next at))

pub u32_at-At :
    (a b c d : ℕ) (rest : List ℕ) {body : List ℕ} {offset : ℕ}
    → At body offset (a ∷ b ∷ c ∷ d ∷ rest)
    → u32_at body offset ≡ u32_of a b c d
unfolding u32_at
u32_at-At a b c d rest {body} {offset} at =
    let at2 : At body (offset + 2) (c ∷ d ∷ rest) = At-append (a ∷ b ∷ []) at in
    let at3 : At body (offset + 3) (d ∷ rest) = At-append (a ∷ b ∷ c ∷ []) at in
    rw (
      byte_at-At a (b ∷ c ∷ d ∷ rest) at,
      byte_at-At b (c ∷ d ∷ rest) (At-next at),
      byte_at-At c (d ∷ rest) at2,
      byte_at-At d rest at3,
    )

pub slice-At :
    (v rest : List ℕ) {body : List ℕ} {offset : ℕ}
    → At body offset (v ++ rest)
    → slice body offset (offset + length v) ≡ v
slice-At v rest {body} {offset} at =
    let n : offset + length v - offset ≡ length v = omega arith in
    rw (n, at.tail) (take-append v rest)
