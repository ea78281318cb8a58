-- ===== src/Gateway/Routes.antt =====
-- The route tables of gateway/route_table.go. Parameters are Go's sort.Slice and the `<` on float64
-- costs. A lookup holds the table's lock; the pools are taken as they are at the time of the lookup.
pub mod Strategies
pub mod Order
pub mod Lookup
pub mod Inbound
pub mod Examples
use go_smsc.Prelude.{
  ℕ, zero, suc, ◌+◌, ◌-◌, ◌%◌, ◌^◌, Bool, true, false, not, ◌&&◌, ◌||◌, List, [], ◌∷◌, ◌++◌, Option,
  none, some, ltb, ◌==◌, if◌then◌else◌, length, get_elem?, Result, ok, err, stuck,
}
use go_smsc.Prelude.Int.{ℤ, pos_part, neg_part, pos, negsuc}
use go_smsc.Prelude.Keys.{Key, key_eq, has_prefix}
use go_smsc.Gateway.Pools.{PoolManager, PoolHealth, Submitter, health, get_submitter}

-- The words that applyStrategy knows, and any other text.
pub data Strategy : Type 0 where
  failover round_robin least_cost : Strategy
  other_strategy : Key → Strategy

pub record RoutePool (Cost : Type 0) : Type 0 where
  pub name : Key
  pub cost : Cost

pub record MtRoute (Cost : Type 0) : Type 0 where
  pub prefix : Key
  pub strategy : Strategy
  pub pools : List (RoutePool Cost)
  pub rr_index : ℕ

pub data RouteError : Type 0 where
  no_route unknown_strategy no_pools no_healthy_pool : RouteError

-- "*"
abbrev pub star : Key
star = 42 ∷ []

-- The submitter and the pool's name; `stuck` where the source panics.
abbrev pub Choice : Type 0
Choice = Result RouteError (Submitter × Key)

-- A pool that a strategy may choose: healthy, and GetSubmitter finds it.
unfoldable pub usable : PoolManager → Key → Option Submitter
usable pm name = if (health pm name).healthy then get_submitter pm name else none

-- `(int(idx)+i) % n` as an index: int wraps at 2 ^ 63, and a negative remainder panics.
unfoldable pub rr_position : ℕ → ℕ → ℕ → Option ℕ
rr_position idx i n =
    let at = (idx + i) % 2 ^ 64 in
    if ltb at (2 ^ 63) then some (at % n) else if (2 ^ 64 - at) % n == 0 then some 0 else none

module _ {Cost : Type 0} where
  unfoldable pub resolve_failover : List (RoutePool Cost) → PoolManager → Choice
  unfolding usable
  resolve_failover [] pm = err no_healthy_pool
  resolve_failover (rp ∷ rps) pm = elim (usable pm rp.name) [
    | some sub ↦ ok (sub, rp.name)
    | none ↦ resolve_failover rps pm
  ]

  -- The loop from `i` on, with `left` rounds to go.
  unfoldable pub rr_loop : List (RoutePool Cost) → PoolManager → ℕ → ℕ → ℕ → Choice
  unfolding usable rr_position
  rr_loop rps pm idx i zero = err no_healthy_pool
  rr_loop rps pm idx i (suc left) = elim (rr_position idx i (length rps)) [
    | none ↦ stuck
    | some p ↦ elim (get_elem? rps p) [
      | none ↦ stuck
      | some rp ↦ elim (usable pm rp.name) [
        | some sub ↦ ok (sub, rp.name)
        | none ↦ rr_loop rps pm idx (i + 1) left
      ]
    ]
  ]

  -- `rrIndex.Add(1) - 1` is the old index, mod 2 ^ 64.
  unfoldable pub resolve_round_robin : MtRoute Cost → PoolManager → MtRoute Cost × Choice
  unfolding rr_loop
  resolve_round_robin route pm =
      let n = length route.pools in
      let next = (route.rr_index + 1) % 2 ^ 64 in
      if n == 0
      then (route, err no_pools)
      else (record route { rr_index = next }, rr_loop route.pools pm route.rr_index 0 n)

  -- `strings.HasPrefix`, or the default route.
  unfoldable pub matches : Key → MtRoute Cost → Bool
  matches msisdn route = key_eq route.prefix star || has_prefix msisdn route.prefix

  unfoldable pub remove_by_prefix : Key → List (MtRoute Cost) → List (MtRoute Cost) × Bool
  remove_by_prefix prefix [] = ([], false)
  remove_by_prefix prefix (r ∷ rs) =
      let rest = remove_by_prefix prefix rs in
      if key_eq r.prefix prefix then (rs, true) else (r ∷ rest.0, rest.1)

  -- RemoveRoute
  unfoldable pub remove_route : List (MtRoute Cost) → Key → List (MtRoute Cost) × Bool
  unfolding remove_by_prefix
  remove_route routes prefix = remove_by_prefix prefix routes

  -- The `less` that AddRoute passes to sort.Slice.
  unfoldable pub goes_before : MtRoute Cost → MtRoute Cost → Bool
  goes_before a b =
      if key_eq a.prefix star
      then false
      else if key_eq b.prefix star
      then true
      else ltb (length b.prefix) (length a.prefix)

  -- The `less` of least cost.
  unfoldable pub cheaper : (Cost → Cost → Bool) → RoutePool Cost → RoutePool Cost → Bool
  cheaper cost_less a b = cost_less a.cost b.cost

  module _
      (sort_routes : (MtRoute Cost → MtRoute Cost → Bool)
        → List (MtRoute Cost)
        → List (MtRoute Cost)) where
    unfoldable pub add_route : List (MtRoute Cost) → MtRoute Cost → List (MtRoute Cost)
    unfolding remove_by_prefix goes_before
    add_route routes route =
        let without = (remove_by_prefix route.prefix routes).0 in
        sort_routes goes_before (without ++ route ∷ [])

  module _ (cost_less : Cost → Cost → Bool)
      (sort_pools : (RoutePool Cost → RoutePool Cost → Bool)
        → List (RoutePool Cost)
        → List (RoutePool Cost)) where
    unfoldable pub resolve_least_cost : List (RoutePool Cost) → PoolManager → Choice
    unfolding resolve_failover cheaper
    resolve_least_cost rps pm = resolve_failover (sort_pools (cheaper cost_less) rps) pm

    unfoldable pub apply_strategy : MtRoute Cost → PoolManager → MtRoute Cost × Choice
    unfolding resolve_failover resolve_round_robin resolve_least_cost
    apply_strategy route pm = elim route.strategy [
      | failover ↦ (route, resolve_failover route.pools pm)
      | round_robin ↦ resolve_round_robin route pm
      | least_cost ↦ (route, resolve_least_cost route.pools pm)
      | other_strategy word ↦ (route, err unknown_strategy)
    ]

    -- The table after the call (a round-robin index may have moved) and the result.
    unfoldable pub resolve : List (MtRoute Cost) → Key → PoolManager → List (MtRoute Cost) × Choice
    unfolding matches apply_strategy
    resolve [] msisdn pm = ([], err no_route)
    resolve (r ∷ rs) msisdn pm =
        let rest = resolve rs msisdn pm in
        let (moved, choice) = apply_strategy r pm in
        if matches msisdn r then (moved ∷ rs, choice) else (r ∷ rest.0, rest.1)

-- Inbound routes. Priority is an int.
pub record MoTarget : Type 0 where
  pub kind : Key
  pub conn_id : Key
  pub callback_url : Key

pub record MoRoute : Type 0 where
  pub dest_pattern : Key
  pub source_prefix : Key
  pub target : MoTarget
  pub priority : ℤ

-- Whether a text ends in "*", and the text without that.
unfoldable pub ends_in_star : Key → Bool
ends_in_star [] = false
ends_in_star (b ∷ []) = b == 42
ends_in_star (b ∷ c ∷ s) = ends_in_star (c ∷ s)

unfoldable pub trim_star : Key → Key
trim_star [] = []
trim_star (b ∷ []) = if b == 42 then [] else b ∷ []
trim_star (b ∷ c ∷ s) = b ∷ trim_star (c ∷ s)

unfoldable pub dest_matches : MoRoute → Key → Bool
unfolding ends_in_star trim_star
dest_matches route dest_addr =
    if ends_in_star route.dest_pattern
    then has_prefix dest_addr (trim_star route.dest_pattern)
    else key_eq dest_addr route.dest_pattern

unfoldable pub source_matches : MoRoute → Key → Bool
source_matches route source_addr =
    key_eq route.source_prefix [] || has_prefix source_addr route.source_prefix

unfoldable pub mo_resolve : List MoRoute → Key → Key → Option MoTarget
unfolding dest_matches source_matches
mo_resolve [] source_addr dest_addr = none
mo_resolve (r ∷ rs) source_addr dest_addr =
    if not (dest_matches r dest_addr)
    then mo_resolve rs source_addr dest_addr
    else if not (source_matches r source_addr)
    then mo_resolve rs source_addr dest_addr
    else some r.target

-- `b < a` on ints
unfoldable pub higher : MoRoute → MoRoute → Bool
higher a b =
    ltb (pos_part b.priority + neg_part a.priority) (pos_part a.priority + neg_part b.priority)

unfoldable pub mo_add_route :
    ((MoRoute → MoRoute → Bool) → List MoRoute → List MoRoute)
    → List MoRoute
    → MoRoute
    → List MoRoute
unfolding higher
mo_add_route sort_routes routes route = sort_routes higher (routes ++ route ∷ [])

unfoldable pub mo_remove_route : List MoRoute → Key → Key → List MoRoute × Bool
mo_remove_route [] dest_pattern source_prefix = ([], false)
mo_remove_route (r ∷ rs) dest_pattern source_prefix =
    let rest = mo_remove_route rs dest_pattern source_prefix in
    if key_eq r.dest_pattern dest_pattern && key_eq r.source_prefix source_prefix
    then (rs, true)
    else (r ∷ rest.0, rest.1)
