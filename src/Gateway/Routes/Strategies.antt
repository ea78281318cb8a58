-- ===== src/Gateway/Routes/Strategies.antt =====
-- The three strategies of the outbound routes: which pool each chooses.
use native.Mathlib.Nat.{mod-add-mod, mod-eq_of_lt, mod-eq-sub-mod, mod-lt}
use mathlib.Core.List.{Memᴰ}
use mathlib.Core.List.Memᴰ
use mathlib.Core.List.Memᴰ.{head}
use mathlib.Core.List.Permᴰ
use go_smsc.Prelude.{
  ℕ, zero, suc, ◌+◌, ◌-◌, ◌%◌, ◌^◌, ◌<◌, ◌≡◌, ◌⊎◌, refl, sym, ap, ◌∙◌, Bool, false, Bool-cases,
  List, [], ◌∷◌, ◌++◌, subst, All-append, none, some, Option-cases, inl, inr, ltb, ltb→lt, length,
  get_elem?, take, drop, drop-length, All, length-append, length-take, length-drop, get_elem?-drop,
  get_elem?-take, get_elem?-append, drop-get_elem?, ok, err, arith,
}
use go_smsc.Prelude.Sorting.{IsWeakOrder, Sorted, Sorts, All-perm, Mem-perm}
use go_smsc.Gateway.Pools.{PoolManager, Submitter}
use go_smsc.Gateway.Routes.{
  RoutePool, MtRoute, no_healthy_pool, usable, resolve_failover, rr_position, rr_loop,
  resolve_round_robin, cheaper, resolve_least_cost,
}

module _ {Cost : Type 0} where
  -- No pool of a list may be chosen.
  abbrev pub NoneUsable : PoolManager → List (RoutePool Cost) → Type 0
  NoneUsable pm = All (λ rp. usable pm rp.name ≡ none)

  -- Failover returns the first usable pool of the list, behind pools none of which is usable; where
  -- none is, it reports that.
  pub resolve_failover-first :
      (rps : List (RoutePool Cost)) (pm : PoolManager)
      → ((front : List (RoutePool Cost)) × (rp : RoutePool Cost) × (back : List (RoutePool Cost))
          × (sub : Submitter) × (rps ≡ front ++ rp ∷ back)
          × NoneUsable pm front
          × (usable pm rp.name ≡ some sub)
          × (resolve_failover rps pm ≡ ok (sub, rp.name)))
        ⊎ (NoneUsable pm rps × (resolve_failover rps pm ≡ err no_healthy_pool))
  unfolding resolve_failover
  resolve_failover-first [] pm = inr (tt, refl)
  resolve_failover-first (rp ∷ rps) pm = elim (Option-cases (usable pm rp.name)) [
    | inr (sub, e) ↦ inl ([], rp, rps, sub, refl, tt, e, ground (arith, e))
    | inl e ↦ elim (resolve_failover-first rps pm) [
      | inl (front, r, back, sub, split, h, u, q) ↦
          inl (rp ∷ front, r, back, sub, ap (λ l. rp ∷ l) split, (e, h), u, ground (arith, e, q))
      | inr (h, q) ↦ inr ((e, h), ground (arith, e, q))
    ]
  ]

  -- From the k-th pool on, and round to it.
  abbrev pub rotated : ℕ → List (RoutePool Cost) → List (RoutePool Cost)
  rotated k rps = drop k rps ++ take k rps

  length-rotated : (k : ℕ) (rps : List (RoutePool Cost)) → length (rotated k rps) ≡ length rps
  length-rotated k rps =
      omega (arith, length-append (drop k rps) (take k rps), length-take k rps, length-drop k rps)

  get_elem?-rotated :
      (k i : ℕ) (rps : List (RoutePool Cost))
      → k < length rps
      → i < length rps
      → get_elem? (rotated k rps) i ≡ get_elem? rps ((k + i) % length rps)
  get_elem?-rotated k i rps hk hi = elim (Bool-cases (ltb (k + i) (length rps))) [
    | inl e ↦
        let small : (k + i) % length rps ≡ k + i = mod-eq_of_lt (ltb→lt (k + i) (length rps) e) in
        ground (
          arith,
          small,
          get_elem?-append (drop k rps) (take k rps) i,
          length-drop k rps,
          get_elem?-drop k i rps,
        )
    | inr e ↦
        let n = length rps in
        let wrap : (k + i) % n ≡ k + i - n =
          mod-eq-sub-mod (ground arith) ∙ mod-eq_of_lt (ground arith) in
        let there : i - length (drop k rps) ≡ k + i - n = ground (arith, length-drop k rps) in
        ground (
          arith,
          wrap,
          get_elem?-append (drop k rps) (take k rps) i,
          length-drop k rps,
          there,
          get_elem?-take k (k + i - n) rps (ground arith),
        )
  ]

  rr_loop-rotated :
      (rps : List (RoutePool Cost)) (pm : PoolManager) (idx i left : ℕ)
      → idx + length rps < 2 ^ 63
      → i + left ≡ length rps
      → rr_loop rps pm idx i left ≡ resolve_failover (drop i (rotated (idx % length rps) rps)) pm
  unfolding rr_loop rr_position resolve_failover
  rr_loop-rotated rps pm idx i zero room e =
      let done : drop i (rotated (idx % length rps) rps) ≡ [] =
        ap (λ j. drop j (rotated (idx % length rps) rps))
          (omega (arith, e, length-rotated (idx % length rps) rps))
        ∙ drop-length (rotated (idx % length rps) rps) in
      rw done refl
  rr_loop-rotated rps pm idx i (suc left) room e =
      let n = length rps in
      let k = idx % n in
      let (rp, at, split) =
        drop-get_elem? (rotated k rps) i (omega (arith, e, length-rotated k rps)) in
      let position : rr_position idx i n ≡ some ((idx + i) % n) = ground (arith, room, e) in
      let same : (k + i) % n ≡ (idx + i) % n = mod-add-mod idx n i in
      let there : get_elem? rps ((idx + i) % n) ≡ some rp =
        sym (ap (get_elem? rps) same)
        ∙ sym (get_elem?-rotated k i rps (mod-lt idx (omega (arith, e))) (omega (arith, e)))
        ∙ at in
      let rest = rr_loop-rotated rps pm idx (i + 1) left room (omega (arith, e)) in
      ground (arith, position, there, split, rest)

  -- With one pool at least, and while the index is below 2 ^ 63 less the number of pools, a
  -- round-robin lookup adds 1 to the index and returns the first usable pool from the one at the
  -- index, modulo the number of pools, round to the one before it, or reports that none is usable.
  pub resolve_round_robin-rotated :
      (route : MtRoute Cost) (pm : PoolManager)
      → 0 < length route.pools
      → route.rr_index + length route.pools < 2 ^ 63
      → resolve_round_robin route pm ≡ (
        record route { rr_index = route.rr_index + 1 },
        resolve_failover (rotated (route.rr_index % length route.pools) route.pools) pm,
      )
  unfolding resolve_round_robin
  resolve_round_robin-rotated route pm some_pool room =
      let next : (route.rr_index + 1) % 2 ^ 64 ≡ route.rr_index + 1 = omega (arith, room) in
      let found =
        rr_loop-rotated route.pools pm route.rr_index 0 (length route.pools) room (omega arith) in
      ground (arith, next, found, some_pool)

  Sorted-behind :
      (less : RoutePool Cost → RoutePool Cost → Bool) (front back : List (RoutePool Cost))
      (rp : RoutePool Cost)
      → Sorted less (front ++ rp ∷ back)
      → All (λ r. less r rp ≡ false) back
  Sorted-behind less [] back rp h = h.0
  Sorted-behind less (r ∷ front) back rp h = Sorted-behind less front back rp h.1

  module _ (pm : PoolManager) (cost_less : Cost → Cost → Bool) where
    -- A pool that may not be chosen, or is not cheaper than `rp`.
    abbrev pub NoBetter : RoutePool Cost → RoutePool Cost → Type 0
    NoBetter rp r = (usable pm r.name ≡ none) ⊎ (cost_less r.cost rp.cost ≡ false)

    unusable-NoBetter :
        (rp : RoutePool Cost) (rps : List (RoutePool Cost))
        → NoneUsable pm rps
        → All (NoBetter rp) rps
    unusable-NoBetter rp [] h = tt
    unusable-NoBetter rp (r ∷ rps) h = (inl h.0, unusable-NoBetter rp rps h.1)

    above-NoBetter :
        (rp : RoutePool Cost) (rps : List (RoutePool Cost))
        → All (λ r. cheaper cost_less r rp ≡ false) rps
        → All (NoBetter rp) rps
    unfolding cheaper
    above-NoBetter rp [] h = tt
    above-NoBetter rp (r ∷ rps) h = (inr h.0, above-NoBetter rp rps h.1)

    -- Least cost returns a usable pool of the list such that no usable pool of the list costs
    -- less, or reports that no pool is usable, where sort.Slice sorts and `<` is a strict weak
    -- ordering of the costs.
    pub resolve_least_cost-cheapest :
        (sort_pools : (RoutePool Cost → RoutePool Cost → Bool)
          → List (RoutePool Cost)
          → List (RoutePool Cost))
        (rps : List (RoutePool Cost))
        → Sorts sort_pools
        → IsWeakOrder cost_less
        → ((rp : RoutePool Cost) × (sub : Submitter) × Memᴰ rp rps
            × (usable pm rp.name ≡ some sub)
            × All (NoBetter rp) rps
            × (resolve_least_cost cost_less sort_pools rps pm ≡ ok (sub, rp.name)))
          ⊎ (NoneUsable pm rps
              × (resolve_least_cost cost_less sort_pools rps pm ≡ err no_healthy_pool))
    unfolding resolve_least_cost cheaper
    resolve_least_cost-cheapest sort_pools rps s w =
        let less = cheaper cost_less in
        let order : IsWeakOrder less = record {
          asymmetric = λ a b. w.asymmetric a.cost b.cost;
          negatively_transitive = λ a b c. w.negatively_transitive a.cost b.cost c.cost;
        } in
        let perm = Permᴰ.symm (s.permutes less rps) in
        elim (resolve_failover-first (sort_pools less rps) pm) [
          | inr (h, q) ↦ inr (All-perm (λ r. usable pm r.name ≡ none) perm h, q)
          | inl (front, rp, back, sub, split, h, u, q) ↦
              let behind =
                Sorted-behind less front back rp
                  (subst (Sorted less) split (s.orders less rps order)) in
              let none_better : All (NoBetter rp) (front ++ rp ∷ back) =
                All-append (NoBetter rp) front (rp ∷ back) (unusable-NoBetter rp front h) (
                  inr (ground (arith, w.asymmetric rp.cost rp.cost)),
                  above-NoBetter rp back behind,
                ) in
              inl (
                rp,
                sub,
                Mem-perm perm (subst (Memᴰ rp) (sym split) (Memᴰ.append_right front (head refl))),
                u,
                All-perm (NoBetter rp) perm (subst (All (NoBetter rp)) (sym split) none_better),
                q,
              )
        ]
