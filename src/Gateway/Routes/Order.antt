-- ===== src/Gateway/Routes/Order.antt =====
-- The order of the outbound table: AddRoute and RemoveRoute keep it, and keep prefixes distinct.
use go_smsc.Prelude.{
  ℕ, suc, ◌≡◌, Bool, true, false, Bool-cases, inl, inr, List, [], ◌∷◌, ◌++◌, ltb, if◌then◌else◌,
  length, All, All-append, arith,
}
use go_smsc.Prelude.Sorting.{Pairs, IsWeakOrder, Sorted, Sorts, Pairs-perm}
use go_smsc.Prelude.Keys.{Key, key_eq, key_eq→eq, key_eq_refl}
use go_smsc.Gateway.Routes.{MtRoute, star, remove_by_prefix, remove_route, goes_before, add_route}

module _ {Cost : Type 0} where
  -- How specific a route is: "*" is less so than every prefix.
  abbrev pub specificity : MtRoute Cost → ℕ
  specificity r = if key_eq r.prefix star then 0 else suc (length r.prefix)

  -- Two routes have different prefixes.
  abbrev pub Differ : MtRoute Cost → MtRoute Cost → Type 0
  Differ a b = key_eq a.prefix b.prefix ≡ false

  -- The more specific routes stand first, and no prefix has two routes.
  pub record IsOrdered (routes : List (MtRoute Cost)) : Type 0 where
    pub sorted : Sorted goes_before routes
    pub distinct : Pairs Differ routes

  pub goes_before-specificity :
      (a b : MtRoute Cost) → goes_before a b ≡ ltb (specificity b) (specificity a)
  unfolding goes_before
  goes_before-specificity a b = ground arith

  goes_before-IsWeakOrder : IsWeakOrder {A = MtRoute Cost} goes_before
  goes_before-IsWeakOrder = record {
    asymmetric = λ a b h. ground (arith, goes_before-specificity a b, goes_before-specificity b a);
    negatively_transitive = λ a b c h k. ground (
      arith,
      goes_before-specificity b a,
      goes_before-specificity c b,
      goes_before-specificity c a,
    );
  }

  Differ-symmetric : (a b : MtRoute Cost) → Differ a b → Differ b a
  Differ-symmetric a b h = ground (arith, h, key_eq→eq b.prefix a.prefix, key_eq_refl a.prefix)

  remove_by_prefix-All :
      (P : MtRoute Cost → Type 0) (p : Key) (routes : List (MtRoute Cost))
      → All P routes
      → All P (remove_by_prefix p routes).0
  unfolding remove_by_prefix
  remove_by_prefix-All P p [] h = tt
  remove_by_prefix-All P p (r ∷ rs) h = elim (Bool-cases (key_eq r.prefix p)) [
    | inl e ↦ rw e h.1
    | inr e ↦ rw e (h.0, remove_by_prefix-All P p rs h.1)
  ]

  remove_by_prefix-Pairs :
      (R : MtRoute Cost → MtRoute Cost → Type 0) (p : Key) (routes : List (MtRoute Cost))
      → Pairs R routes
      → Pairs R (remove_by_prefix p routes).0
  unfolding remove_by_prefix
  remove_by_prefix-Pairs R p [] h = tt
  remove_by_prefix-Pairs R p (r ∷ rs) h = elim (Bool-cases (key_eq r.prefix p)) [
    | inl e ↦ rw e h.1
    | inr e ↦ rw e (remove_by_prefix-All (R r) p rs h.0, remove_by_prefix-Pairs R p rs h.1)
  ]

  -- The other routes than the one with the prefix.
  others_than :
      (r : MtRoute Cost) (p : Key) (rs : List (MtRoute Cost))
      → key_eq r.prefix p ≡ true
      → All (Differ r) rs
      → All (λ o. key_eq o.prefix p ≡ false) rs
  others_than r p [] e h = tt
  others_than r p (o ∷ rs) e h = (
    ground (arith, e, h.0, key_eq→eq r.prefix p, key_eq→eq o.prefix p, key_eq_refl p),
    others_than r p rs e h.1,
  )

  remove_by_prefix-absent :
      (p : Key) (routes : List (MtRoute Cost))
      → Pairs Differ routes
      → All (λ o. key_eq o.prefix p ≡ false) (remove_by_prefix p routes).0
  unfolding remove_by_prefix
  remove_by_prefix-absent p [] h = tt
  remove_by_prefix-absent p (r ∷ rs) h = elim (Bool-cases (key_eq r.prefix p)) [
    | inl e ↦ rw e (others_than r p rs e h.0)
    | inr e ↦ rw e (e, remove_by_prefix-absent p rs h.1)
  ]

  Pairs-snoc :
      (xs : List (MtRoute Cost)) (r : MtRoute Cost)
      → Pairs Differ xs
      → All (λ o. key_eq o.prefix r.prefix ≡ false) xs
      → Pairs Differ (xs ++ r ∷ [])
  Pairs-snoc [] r h k = (tt, tt)
  Pairs-snoc (x ∷ xs) r h k =
      (All-append (Differ x) xs (r ∷ []) h.0 (k.0, tt), Pairs-snoc xs r h.1 k.1)

  module _
      (sort_routes : (MtRoute Cost → MtRoute Cost → Bool)
        → List (MtRoute Cost)
        → List (MtRoute Cost))
      (sorts : Sorts sort_routes) where
    pub add_route-IsOrdered :
        (routes : List (MtRoute Cost)) (route : MtRoute Cost)
        → IsOrdered routes
        → IsOrdered (add_route sort_routes routes route)
    unfolding add_route
    add_route-IsOrdered routes route o =
        let without = (remove_by_prefix route.prefix routes).0 in
        record {
          sorted = sorts.orders goes_before (without ++ route ∷ []) goes_before-IsWeakOrder;
          distinct =
              Pairs-perm Differ Differ-symmetric
                (sorts.permutes goes_before (without ++ route ∷ []))
                (Pairs-snoc without route
                  (remove_by_prefix-Pairs Differ route.prefix routes o.distinct)
                  (remove_by_prefix-absent route.prefix routes o.distinct));
        }

  pub remove_route-IsOrdered :
      (routes : List (MtRoute Cost)) (prefix : Key)
      → IsOrdered routes
      → IsOrdered (remove_route routes prefix).0
  unfolding remove_route
  remove_route-IsOrdered routes prefix o = record {
    sorted = remove_by_prefix-Pairs _ prefix routes o.sorted;
    distinct = remove_by_prefix-Pairs Differ prefix routes o.distinct;
  }
