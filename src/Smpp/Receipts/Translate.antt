-- ===== src/Smpp/Receipts/Translate.antt =====
-- The receipt that an engine gets names the message by the id that the engine knows.
use go_smsc.Prelude.{
  ℕ, zero, suc, ◌≤◌, ◌<◌, ◌≡◌, refl, sym, ap, ◌∙◌, true, false, Bool-cases, inl, inr, [], ◌∷◌, ◌++◌,
  append_assoc, some, length, take, drop, drop-append, All, arith,
}
use go_smsc.Prelude.Keys.{Key, has_prefix, has_prefix→append, has_prefix-append}
use go_smsc.Smpp.Receipts.{
  is_space, word, opens_id, find_id, replace_first, id_tag, translate_dlr_message_id,
}

-- What follows a word: the end or a space.
abbrev pub AtEnd : Key → Type 0
AtEnd [] = Unit {0}
AtEnd (b ∷ s) = is_space b ≡ true

abbrev pub NoSpace : Key → Type 0
NoSpace = All (λ b. is_space b ≡ false)

word-AtEnd : (s : Key) → (rest : Key) × (s ≡ word s ++ rest) × NoSpace (word s) × AtEnd rest
unfolding word
word-AtEnd [] = ([], refl, tt, tt)
word-AtEnd (b ∷ s) = elim (Bool-cases (is_space b)) [
  | inl e ↦ rw e (b ∷ s, refl, tt, e)
  | inr e ↦
      let (rest, split, plain, end) = word-AtEnd s in
      rw e (rest, ap (λ l. b ∷ l) split, (e, plain), end)
]

word-append : (w rest : Key) → NoSpace w → AtEnd rest → word (w ++ rest) ≡ w
unfolding word
word-append [] [] h end = refl
word-append [] (b ∷ rest) h end = ground (arith, end)
word-append (b ∷ w) rest h end = ground (arith, h.0, word-append w rest h.1 end)

opens_id-take : (s : Key) → opens_id (take 4 s) ≡ opens_id s
unfolding opens_id
opens_id-take [] = refl
opens_id-take (a ∷ []) = refl
opens_id-take (a ∷ b ∷ []) = refl
opens_id-take (a ∷ b ∷ c ∷ []) = refl
opens_id-take (a ∷ b ∷ c ∷ d ∷ s) = refl

opens_id-tag : (c : ℕ) (w : Key) → is_space c ≡ false → opens_id (id_tag ++ c ∷ w) ≡ true
unfolding opens_id
opens_id-tag c w h = ground (arith, h)

opens_id→tag :
    (s : Key)
    → opens_id s ≡ true
    → (c : ℕ) × (w : Key) × (s ≡ id_tag ++ c ∷ w) × (is_space c ≡ false)
unfolding opens_id
opens_id→tag [] h = absurd (cc)
opens_id→tag (a ∷ []) h = absurd (cc)
opens_id→tag (a ∷ b ∷ []) h = absurd (cc)
opens_id→tag (a ∷ b ∷ c ∷ []) h = absurd (cc)
opens_id→tag (a ∷ b ∷ c ∷ d ∷ s) h = (d, s, ground (arith, h), ground (arith, h))

word-plain : (c : ℕ) (w : Key) → is_space c ≡ false → word (c ∷ w) ≡ c ∷ word w
unfolding word
word-plain c w h = ground (arith, h)

opens_id-word :
    (t x : Key)
    → opens_id t ≡ true
    → word (drop 3 t) ≡ x
    → (c : ℕ) × (w : Key) × (x ≡ c ∷ w) × (is_space c ≡ false)
opens_id-word t x e q =
    let (c, w, split, plain) = opens_id→tag t e in
    (c, word w, sym q ∙ ap (λ s. word (drop 3 s)) split ∙ word-plain c w plain, plain)

-- What find_id returns begins with a character that is no space.
found : (s x : Key) → find_id s ≡ some x → (c : ℕ) × (w : Key) × (x ≡ c ∷ w) × (is_space c ≡ false)
unfolding find_id
found [] x h = absurd (cc)
found (b ∷ s) x h = elim (Bool-cases (opens_id (b ∷ s))) [
  | inr e ↦ found s x (ground (arith, h, e))
  | inl e ↦ opens_id-word (b ∷ s) x e (ground (arith, h, e))
]

take_tag : (n : ℕ) (r : Key) → n ≤ 3 → take n (id_tag ++ r) ≡ take n id_tag
take_tag zero r h = refl
take_tag (suc zero) r h = refl
take_tag (suc (suc zero)) r h = refl
take_tag (suc (suc (suc zero))) r h = refl
take_tag (suc (suc (suc (suc n)))) r h = absurd (omega (arith, h))

-- A replacement that keeps the tag keeps the first three bytes.
take-replace_first :
    (n : ℕ) (x y s : Key) → n ≤ 3 → take n (replace_first (id_tag ++ x) (id_tag ++ y) s) ≡ take n s
unfolding replace_first
take-replace_first zero x y s h = refl
take-replace_first (suc n) x y [] h = refl
take-replace_first (suc n) x y (b ∷ s) h = elim (Bool-cases (has_prefix (b ∷ s) (id_tag ++ x))) [
  | inl e ↦
      let (rest, split) = has_prefix→append (b ∷ s) (id_tag ++ x) e in
      rw e (
        ap (take (suc n)) (append_assoc id_tag y _)
        ∙ take_tag (suc n) _ h
        ∙ sym (take_tag (suc n) (x ++ rest) h)
        ∙ ap (take (suc n)) (sym split))
  | inr e ↦ rw e (ap (λ l. b ∷ l) (take-replace_first n x y s (omega (arith, h))))
]

-- A word behind a tag is found.
find_id-tag :
    (y rest : Key)
    → NoSpace y
    → 0 < length y
    → AtEnd rest
    → find_id (id_tag ++ (y ++ rest)) ≡ some y
unfolding find_id
find_id-tag [] rest plain some_byte end = absurd (omega (arith, some_byte))
find_id-tag (c ∷ w) rest plain some_byte end =
    ground (arith, opens_id-tag c (w ++ rest) plain.0, word-append (c ∷ w) rest plain end)

replaced_at :
    (s x y rest : Key)
    → s ≡ id_tag ++ (x ++ rest)
    → replace_first (id_tag ++ x) (id_tag ++ y) s ≡ id_tag ++ (y ++ rest)
unfolding replace_first
replaced_at s x y rest e =
    let there : has_prefix (id_tag ++ (x ++ rest)) (id_tag ++ x) ≡ true =
      has_prefix-append (id_tag ++ x) rest in
    let replaced : replace_first (id_tag ++ x) (id_tag ++ y) (id_tag ++ (x ++ rest))
        ≡ id_tag ++ (y ++ rest) =
      rw (there, drop-append x rest) refl in
    ap (replace_first (id_tag ++ x) (id_tag ++ y)) e ∙ replaced

not_here :
    (s x : Key) (c : ℕ) (w : Key)
    → x ≡ c ∷ w
    → is_space c ≡ false
    → opens_id s ≡ false
    → has_prefix s (id_tag ++ x) ≡ false
not_here s x c w split first e = elim (Bool-cases (has_prefix s (id_tag ++ x))) [
  | inr h ↦ h
  | inl h ↦
      let (rest, whole) = has_prefix→append s (id_tag ++ x) h in
      let opened = ap opens_id (whole ∙ ap (λ l. (id_tag ++ l) ++ rest) split) in
      absurd (cc (e, opened, opens_id-tag c (w ++ rest) first))
]

-- In a text where the pattern finds an id, it finds the gateway's id once translateDLRMessageID has
-- replaced the one by the other, where the gateway's id is not empty and holds no space.
pub find_id-translate :
    (text smsc_id gw_id : Key)
    → find_id text ≡ some smsc_id
    → NoSpace gw_id
    → 0 < length gw_id
    → find_id (translate_dlr_message_id text smsc_id gw_id) ≡ some gw_id
unfolding find_id replace_first translate_dlr_message_id
find_id-translate [] x y h plain some_byte = absurd (cc)
find_id-translate (b ∷ s) x y h plain some_byte = elim (Bool-cases (opens_id (b ∷ s))) [
  | inl e ↦
      let (c, w, split, first) = opens_id→tag (b ∷ s) e in
      let (rest, parts, _, end) = word-AtEnd (c ∷ w) in
      let same : word (c ∷ w) ≡ x = ap (λ l. word (drop 3 l)) (sym split) ∙ ground (arith, h, e) in
      let whole : b ∷ s ≡ id_tag ++ (x ++ rest) =
        split ∙ ap (λ l. id_tag ++ l) (parts ∙ ap (λ l. l ++ rest) same) in
      ap find_id (replaced_at (b ∷ s) x y rest whole) ∙ find_id-tag y rest plain some_byte end
  | inr e ↦
      let later : find_id s ≡ some x = ground (arith, h, e) in
      let (c, w, split, first) = found s x later in
      let kept : opens_id (b ∷ replace_first (id_tag ++ x) (id_tag ++ y) s) ≡ false =
        sym (opens_id-take (b ∷ replace_first (id_tag ++ x) (id_tag ++ y) s))
        ∙ ap (λ l. opens_id (b ∷ l)) (take-replace_first 3 x y s (omega arith))
        ∙ opens_id-take (b ∷ s)
        ∙ e in
      let elsewhere = not_here (b ∷ s) x c w split first e in
      ground (arith, kept, elsewhere, find_id-translate s x y later plain some_byte)
]
