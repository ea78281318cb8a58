-- ===== src/Gateway/Store/Entries.antt =====
-- A database as a list in the order of the keys: its entries, to run the store of gateway/store.go on.
use go_smsc.Prelude.{
  ◌≡◌, ◌⊎◌, subst, refl, ◌∙◌, ap, sym, arith, Bool, true, false, List, [], ◌∷◌, Option, none, some,
  if◌then◌else◌, Bool-cases, inl, inr,
}
use go_smsc.Prelude.Keys.{Key, key_eq, key_eq→eq, key_eq_refl}
use go_smsc.Gateway.Store.Database.{precedes, InOrder}
use mathlib.Core.List.{Memᴰ}
use mathlib.Core.List.Memᴰ.{head, tail}

abbrev pub Entries : Type 0 → Type 0
Entries V = List (Key × V)

head_or_tail : {A : Type 0} → (x y : A) (xs : List A) → Memᴰ x (y ∷ xs) → x ≡ y ⊎ Memᴰ x xs
head_or_tail x y xs (head e) = inl e
head_or_tail x y xs (tail m) = inr m

-- A key that differs from a second one differs from a text that equals the second.
apart_keys : (key k other : Key) → key_eq k key ≡ false → other ≡ k → key_eq key other ≡ false
apart_keys key k other h e = ground (arith, h, e, key_eq→eq key other, key_eq_refl key)

precedes_trans : (a b c : Key) → precedes a b ≡ true → precedes b c ≡ true → precedes a c ≡ true
unfolding precedes
precedes_trans [] [] c h k = absurd (cc h)
precedes_trans [] (y ∷ b) [] h k = absurd (cc k)
precedes_trans [] (y ∷ b) (z ∷ c) h k = refl
precedes_trans (x ∷ a) [] c h k = absurd (cc h)
precedes_trans (x ∷ a) (y ∷ b) [] h k = absurd (cc k)
precedes_trans (x ∷ a) (y ∷ b) (z ∷ c) h k = ground (arith, h, k, precedes_trans a b c)

precedes_asym : (a b : Key) → precedes a b ≡ true → precedes b a ≡ false
unfolding precedes
precedes_asym [] [] h = refl
precedes_asym [] (y ∷ b) h = refl
precedes_asym (x ∷ a) [] h = absurd (cc h)
precedes_asym (x ∷ a) (y ∷ b) h = ground (arith, h, precedes_asym a b)

module _ {V : Type 0} where
  unfoldable pub lookup : Entries V → Key → Option V
  lookup [] key = none
  lookup ((k, v) ∷ es) key = if key_eq k key then some v else lookup es key

  unfoldable pub remove : Entries V → Key → Entries V
  remove [] key = []
  remove ((k, v) ∷ es) key =
      let rest = remove es key in if key_eq k key then rest else (k, v) ∷ rest

  unfoldable pub insert : Entries V → Key → V → Entries V
  insert [] key v = (key, v) ∷ []
  insert ((k, w) ∷ es) key v =
      let rest = insert es key v in if precedes key k then (key, v) ∷ (k, w) ∷ es else (k, w) ∷ rest

  pub lookup-remove :
      (es : Entries V) (key other : Key)
      → lookup (remove es key) other ≡ (if key_eq key other then none else lookup es other)
  unfolding lookup remove
  lookup-remove [] key other = ground arith
  lookup-remove ((k, v) ∷ es) key other = ground (
    arith,
    lookup-remove es key other,
    key_eq→eq k key,
    key_eq→eq key other,
    key_eq→eq k other,
    key_eq_refl other,
  )

  pub lookup-insert :
      (es : Entries V) (key other : Key) (v : V)
      → lookup es key ≡ none
      → lookup (insert es key v) other ≡ (if key_eq key other then some v else lookup es other)
  unfolding lookup insert
  lookup-insert [] key other v h = refl
  lookup-insert ((k, w) ∷ es) key other v h = ground (
    arith,
    lookup-insert es key other v,
    h,
    key_eq→eq k key,
    key_eq→eq key other,
    key_eq→eq k other,
    key_eq_refl other,
  )

  pub removed_none : (es : Entries V) (key : Key) → lookup (remove es key) key ≡ none
  removed_none es key =
      lookup-remove es key key ∙ ap (λ b. if b then none else lookup es key) (key_eq_refl key)

  pub Mem-remove :
      (es : Entries V) (key other : Key) (v : V)
      → Memᴰ (other, v) (remove es key)
      → (key_eq key other ≡ false) × Memᴰ (other, v) es
  unfolding remove
  Mem-remove [] key other v m = elim m [ ]
  Mem-remove ((k, w) ∷ es) key other v m =
      let rest : Entries V = remove es key in
      let cases : Bool → Entries V = λ b. if b then rest else (k, w) ∷ rest in
      elim (Bool-cases (key_eq k key)) [
        | inl e ↦
            let (apart, n) =
              Mem-remove es key other v (subst (λ b. Memᴰ (other, v) (cases b)) e m) in
            (apart, tail n)
        | inr e ↦
            elim (head_or_tail (other, v) (k, w) rest
              (subst (λ b. Memᴰ (other, v) (cases b)) e m)) [
                | inl same ↦ (apart_keys key k other e (ap (λ x. x.0) same), head same)
                | inr n ↦ let (apart, n') = Mem-remove es key other v n in (apart, tail n')
              ]
      ]

  pub Mem-insert :
      (es : Entries V) (key : Key) (v : V) (x : Key × V)
      → Memᴰ x (insert es key v)
      → x ≡ (key, v) ⊎ Memᴰ x es
  unfolding insert
  Mem-insert [] key v x m = head_or_tail x (key, v) [] m
  Mem-insert ((k, w) ∷ es) key v x m =
      let cases : Bool → Entries V =
        λ b. if b then (key, v) ∷ (k, w) ∷ es else (k, w) ∷ insert es key v in
      elim (Bool-cases (precedes key k)) [
        | inl e ↦ head_or_tail x (key, v) ((k, w) ∷ es) (subst (λ b. Memᴰ x (cases b)) e m)
        | inr e ↦
            elim (head_or_tail x (k, w) (insert es key v) (subst (λ b. Memᴰ x (cases b)) e m)) [
              | inl same ↦ inr (head same)
              | inr n ↦ elim (Mem-insert es key v x n) [
                | inl same ↦ inl same
                | inr n' ↦ inr (tail n')
              ]
            ]
      ]

  pub inserted : (es : Entries V) (key : Key) (v : V) → Memᴰ (key, v) (insert es key v)
  unfolding insert
  inserted [] key v = head refl
  inserted ((k, w) ∷ es) key v =
      let cases : Bool → Entries V =
        λ b. if b then (key, v) ∷ (k, w) ∷ es else (k, w) ∷ insert es key v in
      elim (Bool-cases (precedes key k)) [
        | inl e ↦ subst (λ b. Memᴰ (key, v) (cases b)) (sym e) (head refl)
        | inr e ↦ subst (λ b. Memᴰ (key, v) (cases b)) (sym e) (tail (inserted es key v))
      ]

  pub keeps-insert :
      (es : Entries V) (key : Key) (v : V) (x : Key × V) → Memᴰ x es → Memᴰ x (insert es key v)
  unfolding insert
  keeps-insert [] key v x m = elim m [ ]
  keeps-insert ((k, w) ∷ es) key v x m =
      let cases : Bool → Entries V =
        λ b. if b then (key, v) ∷ (k, w) ∷ es else (k, w) ∷ insert es key v in
      elim (Bool-cases (precedes key k)) [
        | inl e ↦ subst (λ b. Memᴰ x (cases b)) (sym e) (tail m)
        | inr e ↦
            subst (λ b. Memᴰ x (cases b)) (sym e)
              (elim (head_or_tail x (k, w) es m) [
                | inl same ↦ head same
                | inr n ↦ tail (keeps-insert es key v x n)
              ])
      ]

  pub keeps-remove :
      (es : Entries V) (key : Key) (x : Key × V)
      → Memᴰ x es
      → key_eq x.0 key ≡ false
      → Memᴰ x (remove es key)
  unfolding remove
  keeps-remove [] key x m h = elim m [ ]
  keeps-remove ((k, w) ∷ es) key x m h =
      let cases : Bool → Entries V = λ b. if b then remove es key else (k, w) ∷ remove es key in
      let at_head : x ≡ (k, w) → key_eq k key ≡ false =
        λ same. sym (ap (λ y. key_eq y.0 key) same) ∙ h in
      elim (Bool-cases (key_eq k key)) [
        | inl e ↦
            subst (λ b. Memᴰ x (cases b)) (sym e)
              (elim (head_or_tail x (k, w) es m) [
                | inl same ↦ let never = at_head same in absurd (cc (never, e))
                | inr n ↦ keeps-remove es key x n h
              ])
        | inr e ↦
            subst (λ b. Memᴰ x (cases b)) (sym e)
              (elim (head_or_tail x (k, w) es m) [
                | inl same ↦ head same
                | inr n ↦ tail (keeps-remove es key x n h)
              ])
      ]

  pub InOrder-remove : (es : Entries V) (key : Key) → InOrder es → InOrder (remove es key)
  unfolding remove
  InOrder-remove [] key h = tt
  InOrder-remove ((k, w) ∷ es) key h =
      let cases : Bool → Entries V = λ b. if b then remove es key else (k, w) ∷ remove es key in
      elim (Bool-cases (key_eq k key)) [
        | inl e ↦ subst (λ b. InOrder (cases b)) (sym e) (InOrder-remove es key h.1)
        | inr e ↦
            subst (λ b. InOrder (cases b)) (sym e)
              (λ x m. h.0 x (Mem-remove es key x.0 x.1 m).1, InOrder-remove es key h.1)
      ]

  pub InOrder-insert : (es : Entries V) (key : Key) (v : V) → InOrder es → InOrder (insert es key v)
  unfolding insert
  InOrder-insert [] key v h = (λ x m. elim m [ ], tt)
  InOrder-insert ((k, w) ∷ es) key v h =
      let cases : Bool → Entries V =
        λ b. if b then (key, v) ∷ (k, w) ∷ es else (k, w) ∷ insert es key v in
      elim (Bool-cases (precedes key k)) [
        | inl e ↦
            subst (λ b. InOrder (cases b)) (sym e)
              (
                λ x m. elim (head_or_tail x (k, w) es m) [
                  | inl same ↦ ap (λ y. precedes y.0 key) same ∙ precedes_asym key k e
                  | inr n ↦ elim (Bool-cases (precedes x.0 key)) [
                    | inl f ↦
                        let before = precedes_trans x.0 key k f e in
                        let never = h.0 x n in absurd (cc (before, never))
                    | inr f ↦ f
                  ]
                ],
                h,
              )
        | inr e ↦
            subst (λ b. InOrder (cases b)) (sym e)
              (
                λ x m. elim (Mem-insert es key v x m) [
                  | inl same ↦ ap (λ y. precedes y.0 k) same ∙ e
                  | inr n ↦ h.0 x n
                ],
                InOrder-insert es key v h.1,
              )
      ]
