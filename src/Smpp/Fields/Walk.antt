-- ===== src/Smpp/Fields/Walk.antt =====
-- A walk over the fields of a layout, with the helpers of smpp/pdu_fields.go, and that it reaches
-- the end of a body that has the layout.
use go_smsc.Prelude.{
  ℕ, ◌+◌, ◌≡◌, refl, subst, inl, inr, true, false, List, [], ◌∷◌, ◌++◌, Option, some, ◌==◌,
  if◌then◌else◌, ◌>>=◌, length, length-append, arith,
}
use go_smsc.Smpp.CString.{skip_c_string}
use go_smsc.Smpp.CString.Cursor.{
  At, At-append, At-next, At-c_string, skip_c_string-At, get_elem?-At,
}
use go_smsc.Smpp.Fields.Layout.{Field, c_string, optional_c_string, octets, message, Parses}
use go_smsc.Smpp.Fields.{skip_octets, skip_message}

unfoldable pub walk_field : Field → List ℕ → ℕ → Option ℕ
walk_field c_string body offset = skip_c_string body offset
walk_field optional_c_string body offset =
    if length body == offset then some offset else skip_c_string body offset
walk_field (octets k) body offset = skip_octets k body offset
walk_field message body offset = skip_message body offset

unfoldable pub walk : List Field → List ℕ → ℕ → Option ℕ
walk [] body offset = some offset
walk (f ∷ fs) body offset = walk_field f body offset >>= walk fs body

skip_octets-At :
    (front rest : List ℕ) {body : List ℕ} {offset : ℕ}
    → At body offset (front ++ rest)
    → skip_octets (length front) body offset ≡ some (offset + length front)
unfolding skip_octets
skip_octets-At front rest a = ground (arith, a.room, length-append front rest)

skip_message-At :
    (sm rest : List ℕ) {body : List ℕ} {offset : ℕ}
    → At body offset (length sm ∷ (sm ++ rest))
    → skip_message body offset ≡ some (offset + 1 + length sm)
unfolding skip_message
skip_message-At sm rest a = rw (get_elem?-At a) (skip_octets-At sm rest (At-next a))

-- A body that begins with the layout is walked to the layout's end.
pub walk_complete :
    (fs : List Field) {body : List ℕ} {offset : ℕ} (here rest : List ℕ)
    → At body offset here
    → Parses fs here rest
    → (end : ℕ) × (walk fs body offset ≡ some end) × At body end rest
unfolding walk walk_field
walk_complete [] {body} {offset} here rest a p = (offset, refl, subst (At body offset) p a)
walk_complete (c_string ∷ fs) {body} {offset} here rest a (s, next, h, e, p) =
    let a' = subst (At body offset) e a in
    rw (skip_c_string-At s next a' h) (walk_complete fs next rest (At-c_string s a') p)
walk_complete (optional_c_string ∷ fs) {body} {offset} here rest a (inl (e, p)) =
    let a' = subst (At body offset) e a in
    let full : (length body == offset) ≡ true = ground (arith, a'.room) in
    rw full (walk_complete fs [] rest a' p)
walk_complete (optional_c_string ∷ fs) {body} {offset} here rest a (inr (s, next, h, e, p)) =
    let a' = subst (At body offset) e a in
    let more : (length body == offset) ≡ false =
      ground (arith, a'.room, length-append s (0 ∷ next)) in
    rw (more, skip_c_string-At s next a' h) (walk_complete fs next rest (At-c_string s a') p)
walk_complete (octets k ∷ fs) {body} {offset} here rest a (front, next, h, e, p) =
    let a' = subst (At body offset) e a in
    rw (← h, skip_octets-At front next a') (walk_complete fs next rest (At-append front a') p)
walk_complete (message ∷ fs) {body} {offset} here rest a (sm, next, e, p) =
    let a' = subst (At body offset) e a in
    rw (skip_message-At sm next a') (walk_complete fs next rest (At-append sm (At-next a')) p)
