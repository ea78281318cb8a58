-- ===== src/Prelude/Sorting.antt =====
-- What `sort.Slice` of Go's standard library documents, as hypotheses on a parameter: it permutes the
-- slice, and it orders it where `less` is a strict weak ordering. It need not be stable. An insertion
-- sort shows that the hypotheses can hold.
use go_smsc.Prelude.Tests.{if◌then◌else◌, Bool-cases}
use go_smsc.Prelude.Lists.{All}
use mathlib.Core.Path.{◌≡◌, refl, sym, subst, ◌∙◌}
use mathlib.Core.Logic.{inl, inr}
use mathlib.Core.Bool.{Bool, true, false}
use mathlib.Core.List.{List, [], ◌∷◌}
use mathlib.Core.List.{Memᴰ, Permᴰ}
use mathlib.Core.List.Memᴰ.{head, tail}
use mathlib.Core.List.Permᴰ.{nil, cons, swap, trans}
use mathlib.Core.List.Permᴰ

module _ {A : Type 0} where
  -- R holds of every two elements, the earlier first.
  abbrev pub Pairs : (A → A → Type 0) → List A → Type 0
  Pairs R [] = Unit {0}
  Pairs R (x ∷ xs) = All (R x) xs × Pairs R xs

  pub record IsWeakOrder (less : A → A → Bool) : Type 0 where
    pub asymmetric : (a b : A) → less a b ≡ true → less b a ≡ false
    pub negatively_transitive : (a b c : A) → less b a ≡ false → less c b ≡ false → less c a ≡ false

  -- No element stands before one that is less.
  abbrev pub Sorted : (A → A → Bool) → List A → Type 0
  Sorted less = Pairs (λ a b. less b a ≡ false)

  pub record Sorts (sort_slice : (A → A → Bool) → List A → List A) : Type 0 where
    pub permutes : (less : A → A → Bool) (xs : List A) → Permᴰ xs (sort_slice less xs)
    pub orders :
        (less : A → A → Bool) (xs : List A) → IsWeakOrder less → Sorted less (sort_slice less xs)

  pub All-of_mem : (P : A → Type 0) {x : A} {xs : List A} → Memᴰ x xs → All P xs → P x
  All-of_mem P (head e) h = subst P (sym e) h.0
  All-of_mem P (tail m) h = All-of_mem P m h.1

  pub All-perm : (P : A → Type 0) {xs ys : List A} → Permᴰ xs ys → All P xs → All P ys
  All-perm P nil h = tt
  All-perm P (cons e p) h = (subst P e h.0, All-perm P p h.1)
  All-perm P (swap e f) h = (subst P f h.1.0, (subst P e h.0, h.1.1))
  All-perm P (trans p q) h = All-perm P q (All-perm P p h)

  pub Mem-perm : {x : A} {xs ys : List A} → Permᴰ xs ys → Memᴰ x xs → Memᴰ x ys
  Mem-perm nil m = elim m [ ]
  Mem-perm (cons e p) (head f) = head (f ∙ e)
  Mem-perm (cons e p) (tail m) = tail (Mem-perm p m)
  Mem-perm (swap e f) (head g) = tail (head (g ∙ e))
  Mem-perm (swap e f) (tail (head g)) = head (g ∙ f)
  Mem-perm (swap e f) (tail (tail m)) = tail (tail m)
  Mem-perm (trans p q) m = Mem-perm q (Mem-perm p m)

  pub Pairs-perm :
      (R : A → A → Type 0) {xs ys : List A}
      → ((a b : A) → R a b → R b a)
      → Permᴰ xs ys
      → Pairs R xs
      → Pairs R ys
  Pairs-perm R s nil h = tt
  Pairs-perm R s (cons {l₂ = l₂} e p) h =
      (subst (λ a. All (R a) l₂) e (All-perm (R _) p h.0), Pairs-perm R s p h.1)
  Pairs-perm R s (swap {a = a} {b = b} {b' = b'} {l = l} e f) h = (
    (subst (λ x. R x b') f (subst (λ y. R b y) e (s a b h.0.0)), subst (λ x. All (R x) l) f h.1.0),
    (subst (λ x. All (R x) l) e h.0.1, h.1.1),
  )
  Pairs-perm R s (trans p q) h = Pairs-perm R s q (Pairs-perm R s p h)

  unfoldable pub insert_before : (A → A → Bool) → A → List A → List A
  insert_before less x [] = x ∷ []
  insert_before less x (y ∷ ys) =
      let rest = insert_before less x ys in if less y x then y ∷ rest else x ∷ y ∷ ys

  unfoldable pub insertion_sort : (A → A → Bool) → List A → List A
  unfolding insert_before
  insertion_sort less [] = []
  insertion_sort less (x ∷ xs) = insert_before less x (insertion_sort less xs)

  insert_before-Perm :
      (less : A → A → Bool) (x : A) (ys : List A) → Permᴰ (x ∷ ys) (insert_before less x ys)
  unfolding insert_before
  insert_before-Perm less x [] = Permᴰ.refl (x ∷ [])
  insert_before-Perm less x (y ∷ ys) = elim (Bool-cases (less y x)) [
    | inl e ↦ rw e (trans (swap refl refl) (cons refl (insert_before-Perm less x ys)))
    | inr e ↦ rw e (Permᴰ.refl (x ∷ y ∷ ys))
  ]

  insertion_sort-Perm : (less : A → A → Bool) (xs : List A) → Permᴰ xs (insertion_sort less xs)
  unfolding insertion_sort
  insertion_sort-Perm less [] = nil
  insertion_sort-Perm less (x ∷ xs) =
      trans (cons refl (insertion_sort-Perm less xs))
        (insert_before-Perm less x (insertion_sort less xs))

  above_rest :
      (less : A → A → Bool) (x y : A) (ys : List A)
      → IsWeakOrder less
      → less y x ≡ false
      → All (λ z. less z y ≡ false) ys
      → All (λ z. less z x ≡ false) ys
  above_rest less x y [] w e h = tt
  above_rest less x y (z ∷ ys) w e h =
      (w.negatively_transitive x y z e h.0, above_rest less x y ys w e h.1)

  insert_before-Sorted :
      (less : A → A → Bool) (x : A) (ys : List A)
      → IsWeakOrder less
      → Sorted less ys
      → Sorted less (insert_before less x ys)
  unfolding insert_before
  insert_before-Sorted less x [] w h = (tt, tt)
  insert_before-Sorted less x (y ∷ ys) w h = elim (Bool-cases (less y x)) [
    | inl e ↦ rw e (
      All-perm (λ z. less z y ≡ false) (insert_before-Perm less x ys) (w.asymmetric y x e, h.0),
      insert_before-Sorted less x ys w h.1,
    )
    | inr e ↦ rw e ((e, above_rest less x y ys w e h.0), h)
  ]

  insertion_sort-Sorted :
      (less : A → A → Bool) (xs : List A) → IsWeakOrder less → Sorted less (insertion_sort less xs)
  unfolding insertion_sort
  insertion_sort-Sorted less [] w = tt
  insertion_sort-Sorted less (x ∷ xs) w =
      insert_before-Sorted less x (insertion_sort less xs) w (insertion_sort-Sorted less xs w)

  pub insertion_sort-Sorts : Sorts insertion_sort
  insertion_sort-Sorts = record { permutes = insertion_sort-Perm; orders = insertion_sort-Sorted }
