-- ===== src/Gateway/Routes/Lookup.antt =====
-- Lookup in the outbound table, and all calls on it.
use go_smsc.Prelude.{
  ◌≤◌, ◌≡◌, ◌⊎◌, refl, sym, ap, subst, Bool, true, false, Bool-cases, inl, inr, List, [], ◌∷◌, ◌++◌,
  ltb, if◌then◌else◌, length, All, err, arith,
}
use go_smsc.Prelude.Sorting.{Pairs, Sorts}
use go_smsc.Prelude.Keys.{Key, key_eq}
use go_smsc.Gateway.Pools.{PoolManager}
use go_smsc.Gateway.Routes.{
  RoutePool, MtRoute, no_route, star, matches, goes_before, add_route, remove_route,
  resolve_round_robin, apply_strategy, resolve,
}
use go_smsc.Gateway.Routes.Order.{
  specificity, IsOrdered, goes_before-specificity, add_route-IsOrdered, remove_route-IsOrdered,
}

module _ {Cost : Type 0} (cost_less : Cost → Cost → Bool)
    (sort_pools : (RoutePool Cost → RoutePool Cost → Bool)
      → List (RoutePool Cost)
      → List (RoutePool Cost)) where
  -- A route that does not match, or is not more specific than `r`.
  abbrev pub NoBetter : Key → MtRoute Cost → MtRoute Cost → Type 0
  NoBetter msisdn r o = (matches msisdn o ≡ false) ⊎ (specificity o ≤ specificity r)

  later-NoBetter :
      (msisdn : Key) (r : MtRoute Cost) (rs : List (MtRoute Cost))
      → All (λ o. goes_before o r ≡ false) rs
      → All (NoBetter msisdn r) rs
  later-NoBetter msisdn r [] h = tt
  later-NoBetter msisdn r (o ∷ rs) h =
      (inr (ground (arith, h.0, goes_before-specificity o r)), later-NoBetter msisdn r rs h.1)

  -- In an ordered table Resolve applies the strategy of a matching route than which no matching
  -- route is more specific, replaces that route alone by the strategy's, and returns the strategy's
  -- result; where no route matches, it reports that and leaves the table alone.
  pub resolve-most_specific :
      (routes : List (MtRoute Cost)) (msisdn : Key) (pm : PoolManager)
      → IsOrdered routes
      → ((front : List (MtRoute Cost)) × (r : MtRoute Cost) × (back : List (MtRoute Cost)) × (routes
            ≡ front ++ r ∷ back)
          × (matches msisdn r ≡ true)
          × All (NoBetter msisdn r) routes
          × (resolve cost_less sort_pools routes msisdn pm ≡ (
            front ++ (apply_strategy cost_less sort_pools r pm).0 ∷ back,
            (apply_strategy cost_less sort_pools r pm).1,
          )))
        ⊎ (All (λ o. matches msisdn o ≡ false) routes
            × (resolve cost_less sort_pools routes msisdn pm ≡ (routes, err no_route)))
  unfolding resolve
  resolve-most_specific [] msisdn pm o = inr (tt, refl)
  resolve-most_specific (r ∷ rs) msisdn pm o = elim (Bool-cases (matches msisdn r)) [
    | inl e ↦ inl (
      [],
      r,
      rs,
      refl,
      e,
      (inr (omega arith), later-NoBetter msisdn r rs o.sorted.0),
      ground (arith, e),
    )
    | inr e ↦
        elim (resolve-most_specific rs msisdn pm
          (record { sorted = o.sorted.1; distinct = o.distinct.1 })) [
            | inl (front, best, back, split, m, none_better, q) ↦ inl (
              r ∷ front,
              best,
              back,
              ap (λ l. r ∷ l) split,
              m,
              (inl e, none_better),
              ground (arith, e, q),
            )
            | inr (h, q) ↦ inr ((e, h), ground (arith, e, q))
          ]
  ]

  apply_strategy-prefix :
      (r : MtRoute Cost) (pm : PoolManager)
      → (apply_strategy cost_less sort_pools r pm).0.prefix ≡ r.prefix
  unfolding apply_strategy resolve_round_robin
  apply_strategy-prefix r pm = ground arith

  module _ (pm : PoolManager) (msisdn : Key) where
    resolve-All :
        (Q : Key → Type 0) (routes : List (MtRoute Cost))
        → All (λ r. Q r.prefix) routes
        → All (λ r. Q r.prefix) (resolve cost_less sort_pools routes msisdn pm).0
    unfolding resolve
    resolve-All Q [] h = tt
    resolve-All Q (r ∷ rs) h = elim (Bool-cases (matches msisdn r)) [
      | inl e ↦ rw e (subst Q (sym (apply_strategy-prefix r pm)) h.0, h.1)
      | inr e ↦ rw e (h.0, resolve-All Q rs h.1)
    ]

    resolve-Pairs :
        (Q : Key → Key → Type 0) (routes : List (MtRoute Cost))
        → Pairs (λ a b. Q a.prefix b.prefix) routes
        → Pairs (λ a b. Q a.prefix b.prefix) (resolve cost_less sort_pools routes msisdn pm).0
    unfolding resolve
    resolve-Pairs Q [] h = tt
    resolve-Pairs Q (r ∷ rs) h = elim (Bool-cases (matches msisdn r)) [
      | inl e ↦
          rw e (subst (λ p. All (λ b. Q p b.prefix) rs) (sym (apply_strategy-prefix r pm)) h.0, h.1)
      | inr e ↦ rw e (resolve-All (Q r.prefix) rs h.0, resolve-Pairs Q rs h.1)
    ]

    abbrev before : Key → Key → Bool
    before p q =
        if key_eq p star then false else if key_eq q star then true else ltb (length q) (length p)

    resolve-IsOrdered :
        (routes : List (MtRoute Cost))
        → IsOrdered routes
        → IsOrdered (resolve cost_less sort_pools routes msisdn pm).0
    unfolding goes_before
    resolve-IsOrdered routes o = record {
      sorted = resolve-Pairs (λ p q. before q p ≡ false) routes o.sorted;
      distinct = resolve-Pairs (λ p q. key_eq p q ≡ false) routes o.distinct;
    }

  module _
      (sort_routes : (MtRoute Cost → MtRoute Cost → Bool)
        → List (MtRoute Cost)
        → List (MtRoute Cost)) where
    -- Calls of AddRoute, RemoveRoute and Resolve from the empty table on, one after the other.
    pub data Reach : List (MtRoute Cost) → Type 0 where
      starts : Reach []
      adds :
          {routes : List (MtRoute Cost)}
          → Reach routes
          → (route : MtRoute Cost) → Reach (add_route sort_routes routes route)
      removes :
          {routes : List (MtRoute Cost)}
          → Reach routes
          → (prefix : Key) → Reach (remove_route routes prefix).0
      resolves :
          {routes : List (MtRoute Cost)}
          → Reach routes
          → (msisdn : Key) (pm : PoolManager)
          → Reach (resolve cost_less sort_pools routes msisdn pm).0

    -- After any calls of AddRoute, RemoveRoute and Resolve, the more specific routes stand first and
    -- no prefix has two routes, where sort.Slice sorts.
    pub Reach-IsOrdered :
        (routes : List (MtRoute Cost)) → Sorts sort_routes → Reach routes → IsOrdered routes
    Reach-IsOrdered routes sorts starts = record { sorted = tt; distinct = tt }
    Reach-IsOrdered routes sorts (adds {routes = old} r route) =
        add_route-IsOrdered sort_routes sorts old route (Reach-IsOrdered old sorts r)
    Reach-IsOrdered routes sorts (removes {routes = old} r prefix) =
        remove_route-IsOrdered old prefix (Reach-IsOrdered old sorts r)
    Reach-IsOrdered routes sorts (resolves {routes = old} r msisdn pm) =
        resolve-IsOrdered pm msisdn old (Reach-IsOrdered old sorts r)
