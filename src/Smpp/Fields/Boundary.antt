-- ===== src/Smpp/Fields/Boundary.antt =====
-- MandatoryBodyLen of smpp/pdu_fields.go finds the boundary of every layout.
use go_smsc.Prelude.{
  ℕ, ◌+◌, ◌≤◌, ◌≡◌, refl, sym, ◌∙◌, inl, inr, Bool-cases, List, [], ◌∷◌, Option, none, some, ◌==◌,
  if◌then◌else◌, >>=-some, length, drop, All, arith,
}
use go_smsc.Smpp.Fields.Walk.{walk_field, walk, walk_complete}
use go_smsc.Smpp.Fields.WalkSound.{walk_sound}
use go_smsc.Smpp.CString.Cursor.{At-start}
use go_smsc.Smpp.Fields.Layout.{Field, Parses, layouts}
use go_smsc.Smpp.Fields.{
  mandatory_body_len, mandatory_len_submit_deliver_sm, mandatory_len_c_string_only,
  mandatory_len_bind, mandatory_len_query_sm, mandatory_len_query_sm_resp, mandatory_len_cancel_sm,
  mandatory_len_replace_sm, mandatory_len_data_sm, mandatory_len_alert_notification,
  mandatory_len_broadcast_sm, mandatory_len_query_broadcast_sm,
  mandatory_len_query_broadcast_sm_resp, mandatory_len_cancel_broadcast_sm,
}

abbrev WalksAs : List ℕ → ℕ × List Field → Type 0
WalksAs body (id, fs) = mandatory_body_len id body ≡ walk fs body 0

walks : (body : List ℕ) → All (WalksAs body) layouts
unfolding mandatory_body_len walk walk_field mandatory_len_submit_deliver_sm
    mandatory_len_c_string_only mandatory_len_bind mandatory_len_query_sm
    mandatory_len_query_sm_resp mandatory_len_cancel_sm mandatory_len_replace_sm
    mandatory_len_data_sm mandatory_len_alert_notification mandatory_len_broadcast_sm
    mandatory_len_query_broadcast_sm mandatory_len_query_broadcast_sm_resp
    mandatory_len_cancel_broadcast_sm
walks body = simp >>=-some (
  refl,
  (
    refl,
    (
      refl,
      (
        refl,
        (
          refl,
          (
            refl,
            (
              refl,
              (
                refl,
                (
                  refl,
                  (
                    refl,
                    (
                      refl,
                      (
                        refl,
                        (
                          refl,
                          (
                            refl,
                            (
                              refl,
                              (
                                refl,
                                (
                                  refl,
                                  (
                                    refl,
                                    (
                                      refl,
                                      (
                                        refl,
                                        (
                                          refl,
                                          (
                                            refl,
                                            (
                                              refl,
                                              (
                                                refl,
                                                (refl, (refl, (refl, (refl, (refl, (refl, tt)))))),
                                              ),
                                            ),
                                          ),
                                        ),
                                      ),
                                    ),
                                  ),
                                ),
                              ),
                            ),
                          ),
                        ),
                      ),
                    ),
                  ),
                ),
              ),
            ),
          ),
        ),
      ),
    ),
  ),
)

find_layout : ℕ → List (ℕ × List Field) → Option (List Field)
find_layout id [] = none
find_layout id ((i, fs) ∷ rest) = if id == i then some fs else find_layout id rest

-- The layout that the standard gives a command.
unfoldable pub layout_of : ℕ → Option (List Field)
unfolding find_layout
layout_of id = find_layout id layouts

find_layout-walks :
    (body : List ℕ) (table : List (ℕ × List Field)) (id : ℕ) {fs : List Field}
    → All (WalksAs body) table
    → find_layout id table ≡ some fs
    → WalksAs body (id, fs)
unfolding find_layout
find_layout-walks body [] id w h = absurd (cc)
find_layout-walks body ((i, gs) ∷ rest) id {fs} w h = elim (Bool-cases (id == i)) [
  | inl e ↦ ground (arith, w.0)
  | inr e ↦ find_layout-walks body rest id w.1 (rw e at h)
]

pub mandatory_body_len-walk :
    (id : ℕ) {fs : List Field} (body : List ℕ)
    → layout_of id ≡ some fs
    → mandatory_body_len id body ≡ walk fs body 0
unfolding layout_of
mandatory_body_len-walk id body h = find_layout-walks body layouts id (walks body) h

pub mandatory_body_len-unknown :
    (id : ℕ) (body : List ℕ) → layout_of id ≡ none → mandatory_body_len id body ≡ none
unfolding layout_of mandatory_body_len
mandatory_body_len-unknown id body h = ground arith

-- Where MandatoryBodyLen finds a boundary for a command with a layout, the bytes before the boundary
-- are a value of the layout, and the boundary lies within the body.
pub mandatory_body_len_sound :
    (id : ℕ) (fs : List Field) (body : List ℕ) (n : ℕ)
    → layout_of id ≡ some fs
    → mandatory_body_len id body ≡ some n
    → Parses fs body (drop n body) × (n ≤ length body)
mandatory_body_len_sound id fs body n known h =
    let (rest, p, end) =
      walk_sound fs body (At-start body) (sym (mandatory_body_len-walk id body known) ∙ h) in
    (rw end.tail p, omega (arith, end.room))

-- Where a body is a value of its command's layout followed by `rest`, MandatoryBodyLen finds the
-- place where `rest` begins.
pub mandatory_body_len_complete :
    (id : ℕ) (fs : List Field) (body rest : List ℕ)
    → layout_of id ≡ some fs
    → Parses fs body rest
    → (n : ℕ) × (mandatory_body_len id body ≡ some n)
      × (drop n body ≡ rest)
      × (n + length rest ≡ length body)
mandatory_body_len_complete id fs body rest known p =
    let (n, e, end) = walk_complete fs body rest (At-start body) p in
    (n, mandatory_body_len-walk id body known ∙ e, end.tail, end.room)
