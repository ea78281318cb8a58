-- ===== src/Smpp/Coding/Detect.antt =====
-- DetectCoding chooses the GSM alphabet exactly for the texts that segmentation can count in it.
use go_smsc.Prelude.{
  ℕ, ◌+◌, ◌≡◌, ◌⊎◌, inl, inr, refl, true, false, List, [], ◌∷◌, none, some, Option-cases, arith,
}
use go_smsc.Smpp.Coding.{
  unicode_to_gsm7, unicode_to_gsm7_ext, is_gsm7, gsm7_len, detect_coding, data_coding_default,
  data_coding_ucs2,
}
use go_smsc.Smpp.Segments.{gsm7_char_count}

-- A rune has one or two septets if isGSM7 holds of it, and no length otherwise.
pub gsm7_len-is_gsm7 :
    (r : ℕ)
    → ((is_gsm7 r ≡ true) × ((gsm7_len r ≡ some 1) ⊎ (gsm7_len r ≡ some 2)))
      ⊎ ((is_gsm7 r ≡ false) × (gsm7_len r ≡ none))
unfolding is_gsm7 gsm7_len
gsm7_len-is_gsm7 r = elim (Option-cases (unicode_to_gsm7 r)) [
  | inr (c, e) ↦ inl (ground (arith, e), inl (ground (arith, e)))
  | inl e ↦ elim (Option-cases (unicode_to_gsm7_ext r)) [
    | inr (c, f) ↦ inl (ground (arith, e, f), inr (ground (arith, e, f)))
    | inl f ↦ inr (ground (arith, e, f), ground (arith, e, f))
  ]
]

-- For every text either DetectCoding returns the default coding and gsm7CharCount a number, or
-- DetectCoding returns UCS-2 and gsm7CharCount returns -1.
pub detect_coding-gsm7_char_count :
    (text : List ℕ)
    → ((detect_coding text ≡ data_coding_default) × ((n : ℕ) × (gsm7_char_count text ≡ some n)))
      ⊎ ((detect_coding text ≡ data_coding_ucs2) × (gsm7_char_count text ≡ none))
unfolding detect_coding gsm7_char_count
detect_coding-gsm7_char_count [] = inl (refl, (0, refl))
detect_coding-gsm7_char_count (r ∷ text) = elim (gsm7_len-is_gsm7 r) [
  | inr (h, e) ↦ inr (ground (arith, h), ground (arith, e))
  | inl (h, len) ↦ elim (detect_coding-gsm7_char_count text) [
    | inr (d, c) ↦ inr (
      ground (arith, h, d),
      elim len [ inl e ↦ ground (arith, e, c) | inr e ↦ ground (arith, e, c) ],
    )
    | inl (d, (n, c)) ↦ inl (
      ground (arith, h, d),
      elim len [ inl e ↦ (1 + n, ground (arith, e, c)) | inr e ↦ (2 + n, ground (arith, e, c)) ],
    )
  ]
]
