-- ===== src/Smpp/Segments/Chunks.antt =====
-- Cutting runes into chunks: they join to the text, and each is small enough.
use go_smsc.Prelude.{
  ℕ, zero, suc, ◌+◌, ◌-◌, ◌<◌, ◌≤◌, ◌≡◌, inl, inr, refl, sym, ap, ◌∙◌, Bool-cases, List, [], ◌∷◌,
  ◌++◌, some, ltb, ltb→lt, Option-cases, if◌then◌else◌, length, drop, slice, take-append-drop,
  drop-drop, take-all, append-nil, length-take, length-drop, All, arith,
}
use go_smsc.Smpp.Segments.{chunks_loop, split_rune_chunks}
use go_smsc.Smpp.Segments.Septets.{joined}

abbrev pub FitsRunes : ℕ → List ℕ → Type 0
FitsRunes size p = (0 < length p) × (length p ≤ size)

drop_behind : (runes : List ℕ) (i : ℕ) → length runes ≤ i → drop i runes ≡ []
drop_behind runes zero h = empty runes h
  where
    empty : (xs : List ℕ) → length xs ≤ 0 → xs ≡ []
    empty [] k = refl
    empty (x ∷ xs) k = absurd (omega (arith, k))
drop_behind [] (suc i) h = refl
drop_behind (x ∷ runes) (suc i) h = drop_behind runes i (omega (arith, h))

abbrev end_of : List ℕ → ℕ → ℕ → ℕ
end_of runes i size = if ltb (length runes) (i + size) then length runes else i + size

chunk_fits :
    (runes : List ℕ) (i size : ℕ)
    → 0 < size
    → i < length runes
    → FitsRunes size (slice runes i (end_of runes i size))
chunk_fits runes i size h inside =
    let e = end_of runes i size in
    let l = length-take (e - i) (drop i runes) in
    let d = length-drop i runes in (ground (arith, l, d), ground (arith, l, d))

chunk_joined :
    (runes : List ℕ) (i size : ℕ)
    → slice runes i (end_of runes i size) ++ drop (i + size) runes ≡ drop i runes
chunk_joined runes i size = elim (Bool-cases (ltb (length runes) (i + size))) [
  | inl last ↦
      let beyond = drop_behind runes (i + size) (ground (arith, last)) in
      let whole = take-all (length runes - i) (drop i runes) (sym (length-drop i runes)) in
      rw (last, whole, beyond) (append-nil (drop i runes))
  | inr inner ↦
      let size_left : i + size - i ≡ size = omega arith in
      rw (inner, size_left, sym (drop-drop size i runes)) (take-append-drop size (drop i runes))
]

chunks_loop-parts :
    (fuel : ℕ) (runes : List ℕ) (size i : ℕ)
    → 0 < size
    → 0 < fuel
    → length runes < i + fuel
    → (out : List (List ℕ)) × (chunks_loop fuel runes size i ≡ some out)
      × (joined out ≡ drop i runes)
      × All (FitsRunes size) out
unfolding chunks_loop
chunks_loop-parts zero runes size i pos_size more room = absurd (omega (arith, more))
chunks_loop-parts (suc fuel) runes size i pos_size more room =
    elim (Bool-cases (ltb i (length runes))) [
      | inr done ↦ elim (Option-cases (chunks_loop fuel runes size (i + size))) [
        | inl e ↦
            ([], ground (arith, done, e), sym (drop_behind runes i (ground (arith, done))), tt)
        | inr (rest, e) ↦
            ([], ground (arith, done, e), sym (drop_behind runes i (ground (arith, done))), tt)
      ]
      | inl under ↦
          let inside = ltb→lt i (length runes) under in
          let (out, q, j, good) =
            chunks_loop-parts fuel runes size (i + size) pos_size (omega (arith, inside, room))
              (omega (arith, pos_size, room)) in
          let end = if ltb (length runes) (i + size) then length runes else i + size in
          (
            slice runes i end ∷ out,
            ground (arith, under, q),
            ap (λ l. slice runes i end ++ l) j ∙ chunk_joined runes i size,
            (chunk_fits runes i size pos_size inside, good),
          )
    ]

-- For a chunk size above 0 the runes are cut, the loop ends, the chunks join to the runes, and each
-- has one rune at least and no more than the chunk size.
pub split_rune_chunks-joined :
    (runes : List ℕ) (chunk_size : ℕ)
    → 0 < chunk_size
    → (chunks : List (List ℕ)) × (split_rune_chunks runes chunk_size ≡ some chunks)
      × (joined chunks ≡ runes)
      × All (FitsRunes chunk_size) chunks
unfolding split_rune_chunks
split_rune_chunks-joined runes chunk_size h =
    chunks_loop-parts (suc (length runes)) runes chunk_size 0 h (omega arith) (omega arith)
