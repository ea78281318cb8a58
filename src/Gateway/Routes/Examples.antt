-- ===== src/Gateway/Routes/Examples.antt =====
-- Concrete runs of the theorems on the pool manager and the route tables.
use mathlib.Core.List.{Memᴰ}
use go_smsc.Prelude.{
  ℕ, ◌≡◌, ◌⊎◌, true, false, List, [], ◌∷◌, ◌++◌, Option, none, some, ltb, All, ok, err, arith,
}
use go_smsc.Prelude.Int.{pos}
use go_smsc.Prelude.Sorting.{IsWeakOrder, Sorted, insertion_sort, insertion_sort-Sorts}
use go_smsc.Smpp.Examples.{hi, number}
use go_smsc.Gateway.Pools.{
  transceiver_text, v34_text, SouthboundPoolConfig, PoolSettings, Pool, Submitter, PoolManager,
  new_smpp_submitter,
}
use go_smsc.Gateway.Routes.{
  failover, round_robin, RoutePool, MtRoute, MoRoute, no_healthy_pool, no_route, star, usable,
  resolve_failover, resolve_round_robin, resolve_least_cost, apply_strategy, resolve, matches,
  add_route, mo_resolve, mo_add_route, higher,
}
use go_smsc.Gateway.Routes.Strategies.{
  NoneUsable, rotated, resolve_failover-first, resolve_round_robin-rotated,
  resolve_least_cost-cheapest,
}
use go_smsc.Gateway.Routes.Strategies as Strategies
use go_smsc.Gateway.Routes.Order.{IsOrdered}
use go_smsc.Gateway.Routes.Lookup as Lookup
use go_smsc.Gateway.Routes.Lookup.{resolve-most_specific, Reach-IsOrdered}
use go_smsc.Gateway.Routes.Inbound as Inbound
use go_smsc.Gateway.Routes.Inbound.{
  takes, NotAbove, dest_matches-pattern, mo_resolve-highest, Reach-Sorted,
}

-- A pool that connects with three connections.
abbrev pool : Pool
pool = record { handle = 1; active_connections = 3 }

abbrev connects : PoolSettings → Option Pool
connects s = some pool

abbrev config : SouthboundPoolConfig
config = record {
  name = hi;
  host = number;
  port = pos 2775;
  system_id = hi;
  password = hi;
  source_addr = [];
  connections = pos 0;
  window_size = pos 5;
  tls_enabled = false;
  tls_insecure_skip_verify = false;
  bind_mode = transceiver_text;
  interface_version = v34_text;
}

-- The pool "Hi" is up.
abbrev one_pool : PoolManager
one_pool = record {
  pools = (hi, pool) ∷ [];
  submitters = (hi, new_smpp_submitter pool) ∷ [];
  configs = (hi, config) ∷ [];
}

-- "49" is down, and would be cheaper.
abbrev two_pools : List (RoutePool ℕ)
two_pools = record { name = number; cost = 1 } ∷ record { name = hi; cost = 2 } ∷ []

resolve_failover-first_example :
    ((front : List (RoutePool ℕ)) × (rp : RoutePool ℕ) × (back : List (RoutePool ℕ))
      × (sub : Submitter) × (two_pools ≡ front ++ rp ∷ back)
      × NoneUsable one_pool front
      × (usable one_pool rp.name ≡ some sub)
      × (resolve_failover two_pools one_pool ≡ ok (sub, rp.name)))
    ⊎ (NoneUsable one_pool two_pools × (resolve_failover two_pools one_pool ≡ err no_healthy_pool))
resolve_failover-first_example = resolve_failover-first two_pools one_pool

abbrev rotating : MtRoute ℕ
rotating = record { prefix = number; strategy = round_robin; pools = two_pools; rr_index = 7 }

resolve_round_robin-rotated_example :
    resolve_round_robin rotating one_pool
    ≡ (record rotating { rr_index = 8 }, resolve_failover (rotated 1 two_pools) one_pool)
resolve_round_robin-rotated_example =
    resolve_round_robin-rotated rotating one_pool (omega arith) (omega arith)

ltb-IsWeakOrder : IsWeakOrder ltb
ltb-IsWeakOrder = record {
  asymmetric = λ a b h. ground arith;
  negatively_transitive = λ a b c h k. ground arith;
}

resolve_least_cost-cheapest_example :
    ((rp : RoutePool ℕ) × (sub : Submitter) × Memᴰ rp two_pools
      × (usable one_pool rp.name ≡ some sub)
      × All (Strategies.NoBetter one_pool ltb rp) two_pools
      × (resolve_least_cost ltb insertion_sort two_pools one_pool ≡ ok (sub, rp.name)))
    ⊎ (NoneUsable one_pool two_pools
        × (resolve_least_cost ltb insertion_sort two_pools one_pool ≡ err no_healthy_pool))
resolve_least_cost-cheapest_example =
    resolve_least_cost-cheapest one_pool ltb insertion_sort two_pools insertion_sort-Sorts
      ltb-IsWeakOrder

abbrev default_route : MtRoute ℕ
default_route = record { prefix = star; strategy = failover; pools = two_pools; rr_index = 0 }

-- The default route was added first.
abbrev two_routes : List (MtRoute ℕ)
two_routes = add_route insertion_sort (add_route insertion_sort [] default_route) rotating

two_routes-Reach : Lookup.Reach ltb insertion_sort insertion_sort two_routes
two_routes-Reach = Lookup.adds (Lookup.adds Lookup.starts default_route) rotating

Reach-IsOrdered_example : IsOrdered two_routes
Reach-IsOrdered_example =
    Reach-IsOrdered ltb insertion_sort insertion_sort two_routes insertion_sort-Sorts
      two_routes-Reach

resolve-most_specific_example :
    ((front : List (MtRoute ℕ)) × (r : MtRoute ℕ) × (back : List (MtRoute ℕ)) × (two_routes
        ≡ front ++ r ∷ back)
      × (matches number r ≡ true)
      × All (Lookup.NoBetter ltb insertion_sort number r) two_routes
      × (resolve ltb insertion_sort two_routes number one_pool ≡ (
        front ++ (apply_strategy ltb insertion_sort r one_pool).0 ∷ back,
        (apply_strategy ltb insertion_sort r one_pool).1,
      )))
    ⊎ (All (λ o. matches number o ≡ false) two_routes
        × (resolve ltb insertion_sort two_routes number one_pool ≡ (two_routes, err no_route)))
resolve-most_specific_example =
    resolve-most_specific ltb insertion_sort two_routes number one_pool (
      Reach-IsOrdered ltb insertion_sort insertion_sort two_routes insertion_sort-Sorts
        two_routes-Reach)

abbrev inbound : MoRoute
inbound = record {
  dest_pattern = hi;
  source_prefix = [];
  target = record { kind = hi; conn_id = number; callback_url = [] };
  priority = pos 3;
}

abbrev inbound_table : List MoRoute
inbound_table =
    mo_add_route insertion_sort (mo_add_route insertion_sort [] inbound)
      (record inbound { priority = pos 9 })

inbound_table-Reach : Inbound.Reach insertion_sort inbound_table
inbound_table-Reach =
    Inbound.adds (Inbound.adds Inbound.starts inbound) (record inbound { priority = pos 9 })

Reach-Sorted_example : Sorted higher inbound_table
Reach-Sorted_example =
    Reach-Sorted insertion_sort inbound_table insertion_sort-Sorts inbound_table-Reach

mo_resolve-highest_example :
    ((front : List MoRoute) × (r : MoRoute) × (back : List MoRoute) × (inbound_table
        ≡ front ++ r ∷ back)
      × (takes r number hi ≡ true)
      × All (NotAbove number hi r) inbound_table
      × (mo_resolve inbound_table number hi ≡ some r.target))
    ⊎ (All (λ o. takes o number hi ≡ false) inbound_table
        × (mo_resolve inbound_table number hi ≡ none))
mo_resolve-highest_example =
    mo_resolve-highest inbound_table number hi
      (Reach-Sorted insertion_sort inbound_table insertion_sort-Sorts inbound_table-Reach)
