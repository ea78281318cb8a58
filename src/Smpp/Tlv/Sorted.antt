-- ===== src/Smpp/Tlv/Sorted.antt =====
-- The tags in the order in which they are written.
use go_smsc.Prelude.{
  ℕ, ◌<◌, ◌≡◌, refl, sym, ◌∙◌, Bool, true, false, ◌||◌, List, [], ◌∷◌, leb, ◌==◌, Bool-cases, inl,
  inr, arith,
}
use go_smsc.Smpp.Tlv.{
  TlvSet, lookup, has, keys, insert, insert_sorted, sort, put_entries, value_of, encode,
}
use go_smsc.Smpp.Tlv.Map.{lookup-insert}

-- Whether a list names a tag.
unfoldable pub member : ℕ → List ℕ → Bool
member x [] = false
member x (y ∷ ys) = x == y || member x ys

member-insert_sorted :
    (x y : ℕ) (ys : List ℕ) → member x (insert_sorted y ys) ≡ (x == y || member x ys)
unfolding member insert_sorted
member-insert_sorted x y [] = refl
member-insert_sorted x y (z ∷ zs) = ground (arith, member-insert_sorted x y zs)

pub member-sort : (x : ℕ) (ys : List ℕ) → member x (sort ys) ≡ member x ys
unfolding member sort
member-sort x [] = refl
member-sort x (y ∷ ys) = rw (member-insert_sorted x y (sort ys)) (ground (arith, member-sort x ys))

pub member-keys : (x : ℕ) (t : TlvSet) → member x (keys t) ≡ has t x
unfolding member keys has lookup
member-keys x [] = refl
member-keys x ((k, v) ∷ t) = ground (arith, member-keys x t)

-- Each tag is below all that follow it.
abbrev pub IsAscending : List ℕ → Type 0
IsAscending [] = Unit {0}
IsAscending (x ∷ ys) = ((y : ℕ) → member y ys ≡ true → x < y) × IsAscending ys

-- No tag stands twice, as in a Go map.
abbrev pub IsDistinct : TlvSet → Type 0
IsDistinct [] = Unit {0}
IsDistinct ((k, v) ∷ t) = (has t k ≡ false) × IsDistinct t

insert_sorted-IsAscending :
    (x : ℕ) (ys : List ℕ) → member x ys ≡ false → IsAscending ys → IsAscending (insert_sorted x ys)
unfolding member insert_sorted
insert_sorted-IsAscending x [] h a = (λ y e. absurd (cc), tt)
insert_sorted-IsAscending x (z ∷ zs) h a = elim (Bool-cases (leb x z)) [
  | inl le ↦ rw le ((λ y e. ground (arith, a.0 y)), a)
  | inr gt ↦ rw gt (
    (λ y e. ground (arith, a.0 y, member-insert_sorted y x zs)),
    insert_sorted-IsAscending x zs (ground arith) a.1,
  )
]

pub sort-keys-IsAscending : (t : TlvSet) → IsDistinct t → IsAscending (sort (keys t))
unfolding sort keys
sort-keys-IsAscending [] d = tt
sort-keys-IsAscending ((k, v) ∷ t) d =
    insert_sorted-IsAscending k (sort (keys t)) (member-sort k (keys t) ∙ member-keys k t ∙ d.0)
      (sort-keys-IsAscending t d.1)

-- An ascending list is known by its members.
ascending_unique :
    (xs ys : List ℕ)
    → IsAscending xs
    → IsAscending ys
    → ((z : ℕ) → member z xs ≡ member z ys)
    → xs ≡ ys
unfolding member
ascending_unique [] [] a b h = refl
ascending_unique [] (y ∷ ys) a b h = ground (arith, h y)
ascending_unique (x ∷ xs) [] a b h = ground (arith, h x)
ascending_unique (x ∷ xs) (y ∷ ys) a b h =
    let e : x ≡ y = ground (arith, h x, h y, a.0 y, b.0 x) in
    let rest : xs ≡ ys =
      ascending_unique xs ys a.1 b.1 (λ z. ground (arith, h z, e, a.0 z, b.0 z)) in
    ground arith

put_entries_cong :
    (t u : TlvSet) (tags : List ℕ)
    → ((tag : ℕ) → lookup tag t ≡ lookup tag u)
    → put_entries t tags ≡ put_entries u tags
unfolding put_entries
put_entries_cong t u [] h = refl
put_entries_cong t u (tag ∷ tags) h =
    let same : value_of t tag ≡ value_of u tag = rw (h tag, value_of) in
    rw (same, put_entries_cong t u tags h)

-- Encode writes the same bytes for two sets, neither with a tag twice, that hold the same values,
-- in whatever order the maps are iterated.
pub encode_deterministic :
    (t u : TlvSet)
    → IsDistinct t
    → IsDistinct u
    → ((tag : ℕ) → lookup tag t ≡ lookup tag u)
    → encode t ≡ encode u
unfolding encode has
encode_deterministic t u d e h =
    let same : sort (keys t) ≡ sort (keys u) =
      ascending_unique _ _ (sort-keys-IsAscending t d) (sort-keys-IsAscending u e) (λ z.
        member-sort z (keys t)
        ∙ member-keys z t
        ∙ rw (h z, has) (sym (member-keys z u))
        ∙ sym (member-sort z (keys u))) in
    rw same (put_entries_cong t u (sort (keys u)) h)

-- Insertion keeps the tags distinct.
pub insert-IsDistinct :
    (tag : ℕ) (v : List ℕ) (t : TlvSet) → IsDistinct t → IsDistinct (insert tag v t)
unfolding insert has lookup
insert-IsDistinct tag v [] d = (refl, tt)
insert-IsDistinct tag v ((k, w) ∷ t) d = elim (Bool-cases (k == tag)) [
  | inl e ↦ rw e (ground arith, d.1)
  | inr e ↦ rw e (ground (arith, lookup-insert tag k v t), insert-IsDistinct tag v t d.1)
]
