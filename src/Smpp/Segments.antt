-- ===== src/Smpp/Segments.antt =====
-- How smpp/segment.go cuts a text into parts, and the header of a part.
pub mod Septets
pub mod Chunks
use go_smsc.Prelude.{
  ℕ, zero, suc, ◌+◌, ◌%◌, Bool, List, [], ◌∷◌, ◌++◌, Option, none, some, ltb, if◌then◌else◌, length,
  slice,
}
use go_smsc.Smpp.Coding.{gsm7_len}

-- `none` is the source's -1.
unfoldable pub gsm7_char_count : List ℕ → Option ℕ
unfolding gsm7_len
gsm7_char_count [] = some 0
gsm7_char_count (r ∷ text) = elim (gsm7_len r) [
  | none ↦ none
  | some n ↦ elim (gsm7_char_count text) [ none ↦ none | some m ↦ some (n + m) ]
]

-- The loop, with the part so far and its septets. splitGSM7 calls it only where gsm7CharCount has
-- found every rune in the alphabet; `none` stands for a rune outside.
unfoldable pub septets_loop : ℕ → List ℕ → List (List ℕ) → List ℕ → ℕ → Option (List (List ℕ))
unfolding gsm7_len
septets_loop max_septets [] parts current current_septets =
    some (if ltb 0 (length current) then parts ++ current ∷ [] else parts)
septets_loop max_septets (r ∷ text) parts current current_septets = elim (gsm7_len r) [
  | none ↦ none
  | some n ↦
      let cut = septets_loop max_septets text (parts ++ current ∷ []) (r ∷ []) n in
      let kept = septets_loop max_septets text parts (current ++ r ∷ []) (current_septets + n) in
      if ltb max_septets (current_septets + n) then cut else kept
]

unfoldable pub split_text_by_septets : List ℕ → ℕ → Option (List (List ℕ))
unfolding septets_loop
split_text_by_septets text max_septets = septets_loop max_septets text [] [] 0

-- The loop from `i` on. Its fuel is the number of runes and one; `none` stands for a loop that goes
-- on for longer.
unfoldable pub chunks_loop : ℕ → List ℕ → ℕ → ℕ → Option (List (List ℕ))
chunks_loop zero runes chunk_size i = none
chunks_loop (suc fuel) runes chunk_size i =
    let end = if ltb (length runes) (i + chunk_size) then length runes else i + chunk_size in
    elim (chunks_loop fuel runes chunk_size (i + chunk_size)) [
      | none ↦ if ltb i (length runes) then none else some []
      | some rest ↦ if ltb i (length runes) then some (slice runes i end ∷ rest) else some []
    ]

unfoldable pub split_rune_chunks : List ℕ → ℕ → Option (List (List ℕ))
unfolding chunks_loop
split_rune_chunks runes chunk_size = chunks_loop (suc (length runes)) runes chunk_size 0

pub prepend_udh : List ℕ → ℕ → ℕ → ℕ → List ℕ
prepend_udh payload ref_num total_parts seq_num =
    5 ∷ 0 ∷ 3 ∷ ref_num % 256 ∷ total_parts ∷ seq_num ∷ payload
