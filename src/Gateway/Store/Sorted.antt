-- ===== src/Gateway/Store/Sorted.antt =====
-- A database as a list in the order of the keys, to run the store of gateway/store.go on.
use go_smsc.Prelude.{
  ◌≡◌, subst, refl, ◌∙◌, ap, sym, arith, Bool, true, false, not, ◌&&◌, [], ◌∷◌, Option, none, some,
  if◌then◌else◌, Bool-cases, inl, inr,
}
use go_smsc.Prelude.Keys.{Key, key_eq, key_eq→eq, key_eq_refl}
use go_smsc.Gateway.Store.Database.{Kv, IsKv, precedes, InOrder}
use mathlib.Core.List.{Memᴰ}
use go_smsc.Gateway.Store.Entries.{
  Entries, lookup, remove, insert, lookup-remove, lookup-insert, removed_none, Mem-remove,
  Mem-insert, inserted, keeps-insert, keeps-remove, InOrder-remove, InOrder-insert,
}

set_over :
    {V : Type 0}
    → (b : Bool) (x y : Option V) → (if b then x else if b then none else y) ≡ (if b then x else y)
set_over true x y = refl
set_over false x y = refl

module _ {V : Type 0} where
  unfoldable pub range : Entries V → Key → Key → Entries V
  unfolding remove insert
  range [] low high = []
  range ((k, v) ∷ es) low high =
      let rest = remove (range es low high) k in
      if not (precedes k low) && precedes k high then insert rest k v else rest

  range-InOrder : (es : Entries V) (low high : Key) → InOrder (range es low high)
  unfolding range
  range-InOrder [] low high = tt
  range-InOrder ((k, v) ∷ es) low high =
      let rest : Entries V = remove (range es low high) k in
      let ordered : InOrder rest =
        InOrder-remove (range es low high) k (range-InOrder es low high) in
      elim (Bool-cases (not (precedes k low) && precedes k high)) [
        | inl e ↦
            subst (λ b. InOrder (if b then insert rest k v else rest)) (sym e)
              (InOrder-insert rest k v ordered)
        | inr e ↦ subst (λ b. InOrder (if b then insert rest k v else rest)) (sym e) ordered
      ]

  range_of_lookup :
      (es : Entries V) (low high key : Key) (v : V)
      → lookup es key ≡ some v
      → precedes key low ≡ false
      → precedes key high ≡ true
      → Memᴰ (key, v) (range es low high)
  unfolding lookup range
  range_of_lookup [] low high key v h l u = absurd (cc h)
  range_of_lookup ((k, w) ∷ es) low high key v h l u =
      let rest : Entries V = remove (range es low high) k in
      let cases : Bool → Entries V = λ b. if b then insert rest k w else rest in
      let inside : Bool = not (precedes k low) && precedes k high in
      elim (Bool-cases (key_eq k key)) [
        | inl e ↦
            let same_key : k ≡ key = key_eq→eq k key e in
            let here : inside ≡ true = ground (arith, same_key, l, u) in
            let same : w ≡ v = ground (arith, e, h) in
            subst (λ b. Memᴰ (key, v) (cases b)) (sym here)
              (subst (λ x. Memᴰ x (insert rest k w))
                (ap (λ y. (y, w)) same_key ∙ ap (λ y. (key, y)) same) (inserted rest k w))
        | inr e ↦
            let apart : key_eq key k ≡ false = ground (arith, e, key_eq→eq key k, key_eq_refl k) in
            let n : Memᴰ (key, v) rest =
              keeps-remove (range es low high) k (key, v)
                (range_of_lookup es low high key v (ground (arith, e, h)) l u) apart in
            elim (Bool-cases inside) [
              | inl i ↦
                  subst (λ b. Memᴰ (key, v) (cases b)) (sym i) (keeps-insert rest k w (key, v) n)
              | inr i ↦ subst (λ b. Memᴰ (key, v) (cases b)) (sym i) n
            ]
      ]

  lookup_of_range :
      (es : Entries V) (low high key : Key) (v : V)
      → Memᴰ (key, v) (range es low high)
      → lookup es key ≡ some v
  unfolding lookup range
  lookup_of_range [] low high key v m = elim m [ ]
  lookup_of_range ((k, w) ∷ es) low high key v m =
      let rest : Entries V = remove (range es low high) k in
      let cases : Bool → Entries V = λ b. if b then insert rest k w else rest in
      let inside : Bool = not (precedes k low) && precedes k high in
      let later : Memᴰ (key, v) rest → (if key_eq k key then some w else lookup es key) ≡ some v =
        λ n.
          let (apart, n') = Mem-remove (range es low high) k key v n in
          ap (λ b. if b then some w else lookup es key) apart
          ∙ lookup_of_range es low high key v n' in
      elim (Bool-cases inside) [
        | inl e ↦ elim (Mem-insert rest k w (key, v) (subst (λ b. Memᴰ (key, v) (cases b)) e m)) [
          | inl same ↦
              ap (λ b. if b then some w else lookup es key)
                (ap (key_eq k) (ap (λ x. x.0) same) ∙ key_eq_refl k)
              ∙ ap some (sym (ap (λ x. x.1) same))
          | inr n ↦ later n
        ]
        | inr e ↦ later (subst (λ b. Memᴰ (key, v) (cases b)) e m)
      ]

  abbrev pub sorted_kv : Kv (Entries V) V
  sorted_kv = record {
    get = lookup;
    set = λ es key v. insert (remove es key) key v;
    delete = remove;
    scan = range;
  }

  pub sorted_kv-IsKv : IsKv {V = V} sorted_kv
  sorted_kv-IsKv = record {
    get-set = λ es key other v.
        lookup-insert (remove es key) key other v (removed_none es key)
        ∙ ap (λ o. if key_eq key other then some v else o) (lookup-remove es key other)
        ∙ set_over (key_eq key other) (some v) (lookup es other);
    get-delete = lookup-remove;
    get_of_scan = lookup_of_range;
    scan_of_get = range_of_lookup;
    scan_in_order = range-InOrder;
  }
