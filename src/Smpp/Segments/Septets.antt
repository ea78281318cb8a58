-- ===== src/Smpp/Segments/Septets.antt =====
-- Cutting a text by septets: the parts join to the text, and each fits.
use go_smsc.Prelude.{
  ℕ, ◌+◌, ◌<◌, ◌≤◌, ◌≡◌, inl, inr, refl, sym, ap, ◌∙◌, Bool-cases, true, List, [], ◌∷◌, ◌++◌,
  append-nil, append_assoc, some, Option-cases, ltb, ltb→lt, length, All, All-append, arith,
}
use go_smsc.Smpp.Coding.{gsm7_len}
use go_smsc.Smpp.Coding.Detect.{gsm7_len-is_gsm7}
use go_smsc.Smpp.Segments.{gsm7_char_count, septets_loop, split_text_by_septets}

abbrev pub joined : List (List ℕ) → List ℕ
joined [] = []
joined (p ∷ ps) = p ++ joined ps

pub joined-snoc : (ps : List (List ℕ)) (p : List ℕ) → joined (ps ++ p ∷ []) ≡ joined ps ++ p
joined-snoc [] p = append-nil p
joined-snoc (q ∷ ps) p = ap (λ l. q ++ l) (joined-snoc ps p) ∙ sym (append_assoc q (joined ps) p)

-- A part with a rune at least, and so many septets at most.
abbrev pub FitsSeptets : ℕ → List ℕ → Type 0
FitsSeptets max p = (s : ℕ) × (gsm7_char_count p ≡ some s) × (s ≤ max) × (0 < length p)

count-snoc :
    (text : List ℕ) (r s n : ℕ)
    → gsm7_char_count text ≡ some s
    → gsm7_len r ≡ some n
    → gsm7_char_count (text ++ r ∷ []) ≡ some (s + n)
unfolding gsm7_char_count
count-snoc [] r s n h e = ground (arith, h, e)
count-snoc (c ∷ text) r s n h e = elim (Option-cases (gsm7_len c)) [
  | inl f ↦ absurd (ground (arith, h, f))
  | inr (a, f) ↦ elim (Option-cases (gsm7_char_count text)) [
    | inl g ↦ absurd (ground (arith, h, f, g))
    | inr (b, g) ↦ ground (arith, h, f, g, count-snoc text r b n g e)
  ]
]

count-cons :
    (r : ℕ) (text : List ℕ) (n : ℕ)
    → gsm7_char_count (r ∷ text) ≡ some n
    → (a : ℕ) × (b : ℕ) × (gsm7_len r ≡ some a) × (a ≤ 2) × (gsm7_char_count text ≡ some b)
unfolding gsm7_char_count
count-cons r text n h = elim (Option-cases (gsm7_len r)) [
  | inl f ↦ absurd (ground (arith, h, f))
  | inr (a, f) ↦ elim (Option-cases (gsm7_char_count text)) [
    | inl g ↦ absurd (ground (arith, h, f, g))
    | inr (b, g) ↦ (a, b, f, small a f, g)
  ]
]
  where
    small : (a : ℕ) → gsm7_len r ≡ some a → a ≤ 2
    small a f = elim (gsm7_len-is_gsm7 r) [
      | inl (q, inl e) ↦ ground (arith, e, f)
      | inl (q, inr e) ↦ ground (arith, e, f)
      | inr (q, e) ↦ absurd (ground (arith, e, f))
    ]

filled : (text : List ℕ) (s : ℕ) → gsm7_char_count text ≡ some s → 0 < s → 0 < length text
unfolding gsm7_char_count
filled [] s h p = ground (arith, h, p)
filled (r ∷ text) s h p = omega arith

part_used : (m s a : ℕ) → ltb m (s + a) ≡ true → 2 ≤ m → a ≤ 2 → 0 < s
part_used m s a over two small = omega (arith, ltb→lt m (s + a) over, two, small)

count-single : (r a : ℕ) → gsm7_len r ≡ some a → gsm7_char_count (r ∷ []) ≡ some a
unfolding gsm7_char_count
count-single r a f = ground (arith, f)

septets_loop-parts :
    (max_septets : ℕ) (text : List ℕ) (parts : List (List ℕ)) (current : List ℕ) (s n : ℕ)
    → 2 ≤ max_septets
    → All (FitsSeptets max_septets) parts
    → gsm7_char_count current ≡ some s
    → s ≤ max_septets
    → gsm7_char_count text ≡ some n
    → (out : List (List ℕ)) × (septets_loop max_septets text parts current s ≡ some out)
      × (joined out ≡ joined parts ++ (current ++ text))
      × All (FitsSeptets max_septets) out
unfolding septets_loop
septets_loop-parts m [] parts [] s n two all h fits e =
    (parts, refl, sym (append-nil (joined parts)), all)
septets_loop-parts m [] parts (c ∷ cs) s n two all h fits e = (
  parts ++ (c ∷ cs) ∷ [],
  ground arith,
  joined-snoc parts (c ∷ cs) ∙ ap (λ l. joined parts ++ l) (sym (append-nil (c ∷ cs))),
  All-append (FitsSeptets m) parts ((c ∷ cs) ∷ []) all ((s, h, fits, omega arith), tt),
)
septets_loop-parts m (r ∷ text) parts current s n two all h fits e =
    let (a, b, f, small, g) = count-cons r text n e in
    elim (Bool-cases (ltb m (s + a))) [
      | inl over ↦
          let (out, q, j, good) =
            septets_loop-parts m text (parts ++ current ∷ []) (r ∷ []) a b two
              (All-append (FitsSeptets m) parts (current ∷ []) all
                ((s, h, fits, filled current s h (part_used m s a over two small)), tt))
              (count-single r a f) (omega (arith, small, two)) g in
          (
            out,
            ground (arith, f, over, q),
            j
                ∙ ap (λ l. l ++ (r ∷ text)) (joined-snoc parts current)
                ∙ append_assoc (joined parts) current (r ∷ text),
            good,
          )
      | inr under ↦
          let (out, q, j, good) =
            septets_loop-parts m text parts (current ++ r ∷ []) (s + a) b two all
              (count-snoc current r s a h f) (ground (arith, under)) g in
          (
            out,
            ground (arith, f, under, q),
            j ∙ ap (λ l. joined parts ++ l) (append_assoc current (r ∷ []) text),
            good,
          )
    ]

-- A text of the GSM alphabet is cut into parts that join to it, each with a rune at least and with
-- no more septets than allowed, where two are.
pub split_text_by_septets-joined :
    (text : List ℕ) (max_septets n : ℕ)
    → 2 ≤ max_septets
    → gsm7_char_count text ≡ some n
    → (parts : List (List ℕ)) × (split_text_by_septets text max_septets ≡ some parts)
      × (joined parts ≡ text)
      × All (FitsSeptets max_septets) parts
unfolding split_text_by_septets gsm7_char_count
split_text_by_septets-joined text max_septets n two e =
    septets_loop-parts max_septets text [] [] 0 n two tt refl (omega arith) e
