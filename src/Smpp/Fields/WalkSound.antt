-- ===== src/Smpp/Fields/WalkSound.antt =====
-- A walk that succeeds has read a value of every field of its layout.
use go_smsc.Prelude.{
  ℕ, zero, suc, ◌+◌, ◌≤◌, ◌≡◌, refl, sym, subst, inl, inr, Bool-cases, List, [], ◌∷◌, ◌++◌, Option,
  none, some, ◌==◌, ◌>>=◌, length, take, drop, get_elem?, length-take, take-append-drop,
  Option-cases, arith,
}
use go_smsc.Smpp.Fields.Walk.{walk_field, walk}
use go_smsc.Smpp.CString.{skip_c_string, skip_loop}
use go_smsc.Smpp.CString.Cursor.{NoNul, At, At-append, At-next, At-c_string, get_elem?-At}
use go_smsc.Smpp.Fields.Layout.{Field, c_string, optional_c_string, octets, message, Parses}
use go_smsc.Smpp.Fields.{skip_octets, skip_message}

skip_loop_sound :
    (xs : List ℕ) (i end : ℕ)
    → skip_loop xs i ≡ some end
    → (s : List ℕ) × (next : List ℕ) × NoNul s × (xs ≡ s ++ 0 ∷ next) × (end ≡ i + length s + 1)
unfolding skip_loop
skip_loop_sound [] i end h = absurd (cc)
skip_loop_sound (b ∷ rest) i end h = elim (Bool-cases (b == 0)) [
  | inl z ↦ ([], rest, tt, ground arith, ground arith)
  | inr nz ↦
      let (s, next, n, q, l) = skip_loop_sound rest (i + 1) end (ground arith) in
      (b ∷ s, next, (ground arith, n), ground arith, omega arith)
]

skip_c_string_sound :
    {body here : List ℕ} {offset end : ℕ}
    → At body offset here
    → skip_c_string body offset ≡ some end
    → (s : List ℕ) × (next : List ℕ) × NoNul s × (here ≡ s ++ 0 ∷ next) × At body end next
unfolding skip_c_string
skip_c_string_sound {body} {here} {offset} {end} a h =
    let loop : skip_loop (drop offset body) offset ≡ some end = ground arith in
    let (s, next, n, q, l) = skip_loop_sound here offset end (rw a.tail at loop) in
    (s, next, n, q, rw l (At-c_string s (subst (At body offset) q a)))

skip_octets_sound :
    (k : ℕ) {body here : List ℕ} {offset end : ℕ}
    → At body offset here
    → skip_octets k body offset ≡ some end
    → (front : List ℕ) × (next : List ℕ) × (length front ≡ k)
      × (here ≡ front ++ next)
      × At body end next
unfolding skip_octets
skip_octets_sound k {body} {here} {offset} {end} a h =
    let fits : k ≤ length here = ground (arith, a.room) in
    let size : length (take k here) ≡ k = omega (arith, length-take k here) in
    let split : here ≡ take k here ++ drop k here = sym (take-append-drop k here) in
    let there : end ≡ offset + length (take k here) = ground (arith, size) in
    (
      take k here,
      drop k here,
      size,
      split,
      rw there (At-append (take k here) (subst (At body offset) split a)),
    )

get_elem?-none : (xs : List ℕ) (n : ℕ) → length xs ≤ n → get_elem? xs n ≡ none
get_elem?-none [] n h = refl
get_elem?-none (x ∷ xs) zero h = absurd (omega arith)
get_elem?-none (x ∷ xs) (suc n) h = get_elem?-none xs n (omega arith)

get_elem?-sound :
    (here : List ℕ) {body : List ℕ} {offset b : ℕ}
    → At body offset here
    → get_elem? body offset ≡ some b
    → (next : List ℕ) × (here ≡ b ∷ next)
get_elem?-sound [] {body} {offset} a h =
    absurd (cc (get_elem?-none body offset (omega (arith, a.room))))
get_elem?-sound (x ∷ next) a h = (next, cc (get_elem?-At a))

skip_message_sound :
    {body here : List ℕ} {offset end : ℕ}
    → At body offset here
    → skip_message body offset ≡ some end
    → (sm : List ℕ) × (next : List ℕ) × (here ≡ length sm ∷ (sm ++ next)) × At body end next
unfolding skip_message
skip_message_sound {body} {here} {offset} {end} a h = elim (Option-cases (get_elem? body offset)) [
  | inl e ↦ absurd (cc (rw e at h))
  | inr (n, e) ↦
      let (tail, q) = get_elem?-sound here a e in
      let skipped : skip_octets n body (offset + 1) ≡ some end = rw e at h in
      let (sm, next, size, split, there) =
        skip_octets_sound n (At-next (subst (At body offset) q a)) skipped in
      (sm, next, ground (arith, q, size, split), there)
]

bind-some :
    (o : Option ℕ) (f : ℕ → Option ℕ) {end : ℕ}
    → (o >>= f) ≡ some end
    → (mid : ℕ) × (o ≡ some mid) × (f mid ≡ some end)
bind-some none f h = absurd (cc)
bind-some (some mid) f h = (mid, refl, h)

-- A walk that succeeds has read a value of every field.
pub walk_sound :
    (fs : List Field) (here : List ℕ) {body : List ℕ} {offset end : ℕ}
    → At body offset here
    → walk fs body offset ≡ some end
    → (rest : List ℕ) × Parses fs here rest × At body end rest
unfolding walk walk_field
walk_sound [] here {body} {offset} {end} a h =
    let there : offset ≡ end = ground arith in (here, refl, subst (λ n. At body n here) there a)
walk_sound (c_string ∷ fs) here a h =
    let (mid, e, h') = bind-some _ _ h in
    let (s, next, n, q, a') = skip_c_string_sound a e in
    let (rest, p, end) = walk_sound fs next a' h' in (rest, (s, next, n, q, p), end)
walk_sound (optional_c_string ∷ fs) here {body} {offset} {end} a h =
    elim (Bool-cases (length body == offset)) [
      | inl full ↦
          let nil : here ≡ [] = ground (arith, a.room) in
          let (rest, p, end) = walk_sound fs [] (subst (At body offset) nil a) (rw full at h) in
          (rest, inl (nil, p), end)
      | inr more ↦
          let h'' : (skip_c_string body offset >>= walk fs body) ≡ some end = rw more at h in
          let (mid, e, h') = bind-some _ _ h'' in
          let (s, next, n, q, a') = skip_c_string_sound a e in
          let (rest, p, end) = walk_sound fs next a' h' in (rest, inr (s, next, n, q, p), end)
    ]
walk_sound (octets k ∷ fs) here a h =
    let (mid, e, h') = bind-some _ _ h in
    let (front, next, n, q, a') = skip_octets_sound k a e in
    let (rest, p, end) = walk_sound fs next a' h' in (rest, (front, next, n, q, p), end)
walk_sound (message ∷ fs) here a h =
    let (mid, e, h') = bind-some _ _ h in
    let (sm, next, q, a') = skip_message_sound a e in
    let (rest, p, end) = walk_sound fs next a' h' in (rest, (sm, next, q, p), end)
