-- ===== src/Gateway/Pools/Laws.antt =====
-- The pool manager's maps hold the same names, and what each call finds after Add and Remove.
use go_smsc.Prelude.{
  ◌≡◌, ◌⊎◌, refl, sym, true, false, Bool-cases, Option-cases, inl, inr, Option, none, some,
  if◌then◌else◌, Result, ok, err, stuck, arith,
}
use go_smsc.Prelude.Keys.{Key, key_eq}
use go_smsc.Gateway.ShardMap.{Shard, shard_get, shard_set, shard_delete, existed}
use go_smsc.Gateway.ShardMap.Laws.{
  IsDistinct, shard_get-set, shard_get-delete, shard_set-IsDistinct, shard_delete-IsDistinct,
}
use go_smsc.Gateway.Pools.{
  SouthboundPoolConfig, PoolSettings, settings_of, Pool, Submitter, new_smpp_submitter, PoolManager,
  PoolError, already_exists, connect_failed, new_pool_manager, add_smpp, add, get_submitter, remove,
  submitter_health, pool_health, health, close,
}

-- No map holds a name twice, and the three maps hold the same names.
pub record IsConsistent (pm : PoolManager) : Type 0 where
  pub pools_distinct : IsDistinct pm.pools
  pub submitters_distinct : IsDistinct pm.submitters
  pub configs_distinct : IsDistinct pm.configs
  pub same_submitters : (k : Key) → existed k pm.submitters ≡ existed k pm.pools
  pub same_configs : (k : Key) → existed k pm.configs ≡ existed k pm.pools

module _ {V : Type 0} where
  existed-set :
      (k j : Key) (v : V) (s : Shard V)
      → existed j (shard_set k v s) ≡ (if key_eq k j then true else existed j s)
  unfolding existed
  existed-set k j v s = ground (arith, shard_get-set k j v s)

  existed-delete :
      (k j : Key) (s : Shard V)
      → IsDistinct s
      → existed j (shard_delete k s) ≡ (if key_eq k j then false else existed j s)
  unfolding existed
  existed-delete k j s d = ground (arith, shard_get-delete k j s d)

new_pool_manager-IsConsistent : IsConsistent new_pool_manager
unfolding new_pool_manager existed shard_get
new_pool_manager-IsConsistent = record {
  pools_distinct = tt;
  submitters_distinct = tt;
  configs_distinct = tt;
  same_submitters = λ k. refl;
  same_configs = λ k. refl;
}

-- The state after a call, the old one where the call fails.
abbrev pub after : Result PoolError PoolManager → PoolManager → PoolManager
after (ok pm) old = pm
after (err e) old = old
after stuck old = old

-- The maps with a new pool, and without a name.
abbrev with_pool : PoolManager → SouthboundPoolConfig → Pool → PoolManager
with_pool pm cfg p = record {
  pools = shard_set cfg.name p pm.pools;
  submitters = shard_set cfg.name (new_smpp_submitter p) pm.submitters;
  configs = shard_set cfg.name cfg pm.configs;
}

abbrev without : PoolManager → Key → PoolManager
without pm name = record {
  pools = shard_delete name pm.pools;
  submitters = shard_delete name pm.submitters;
  configs = shard_delete name pm.configs;
}

with_pool-IsConsistent :
    (pm : PoolManager) (cfg : SouthboundPoolConfig) (p : Pool)
    → IsConsistent pm
    → IsConsistent (with_pool pm cfg p)
with_pool-IsConsistent pm cfg p c = record {
  pools_distinct = shard_set-IsDistinct cfg.name p pm.pools c.pools_distinct;
  submitters_distinct = shard_set-IsDistinct cfg.name _ pm.submitters c.submitters_distinct;
  configs_distinct = shard_set-IsDistinct cfg.name cfg pm.configs c.configs_distinct;
  same_submitters = λ k. ground (
    arith,
    existed-set cfg.name k p pm.pools,
    existed-set cfg.name k (new_smpp_submitter p) pm.submitters,
    c.same_submitters k,
  );
  same_configs = λ k. ground (
    arith,
    existed-set cfg.name k p pm.pools,
    existed-set cfg.name k cfg pm.configs,
    c.same_configs k,
  );
}

without-IsConsistent :
    (pm : PoolManager) (name : Key) → IsConsistent pm → IsConsistent (without pm name)
without-IsConsistent pm name c = record {
  pools_distinct = shard_delete-IsDistinct name pm.pools c.pools_distinct;
  submitters_distinct = shard_delete-IsDistinct name pm.submitters c.submitters_distinct;
  configs_distinct = shard_delete-IsDistinct name pm.configs c.configs_distinct;
  same_submitters = λ k. ground (
    arith,
    existed-delete name k pm.pools c.pools_distinct,
    existed-delete name k pm.submitters c.submitters_distinct,
    c.same_submitters k,
  );
  same_configs = λ k. ground (
    arith,
    existed-delete name k pm.pools c.pools_distinct,
    existed-delete name k pm.configs c.configs_distinct,
    c.same_configs k,
  );
}

module _ (connect : PoolSettings → Option Pool) where
  add-cases :
      (pm : PoolManager) (cfg : SouthboundPoolConfig)
      → ((p : Pool) × (add connect pm cfg ≡ ok (with_pool pm cfg p)))
        ⊎ ((e : PoolError) × (add connect pm cfg ≡ err e))
  unfolding add add_smpp
  add-cases pm cfg = elim (Bool-cases (existed cfg.name pm.submitters)) [
    | inl e ↦ inr (already_exists, ground (arith, e))
    | inr e ↦ elim (Bool-cases (existed cfg.name pm.pools)) [
      | inl f ↦ inr (already_exists, ground (arith, e, f))
      | inr f ↦ elim (Option-cases (connect (settings_of cfg))) [
        | inl g ↦ inr (connect_failed, ground (arith, e, f, g))
        | inr (p, g) ↦ inl (p, ground (arith, e, f, g))
      ]
    ]
  ]

  add-IsConsistent :
      (pm : PoolManager) (cfg : SouthboundPoolConfig)
      → IsConsistent pm
      → IsConsistent (after (add connect pm cfg) pm)
  add-IsConsistent pm cfg c = elim (add-cases pm cfg) [
    | inl (p, e) ↦ rw e (with_pool-IsConsistent pm cfg p c)
    | inr (x, e) ↦ rw e c
  ]

  -- In a consistent manager where GetSubmitter finds nothing under the name and the connection
  -- succeeds, Add returns a manager in which Health of the name is that of the new pool,
  -- GetSubmitter finds its submitter, and both answer for all other names as before.
  pub add-registers :
      (pm : PoolManager) (cfg : SouthboundPoolConfig) (p : Pool)
      → IsConsistent pm
      → get_submitter pm cfg.name ≡ none
      → connect (settings_of cfg) ≡ some p
      → (new : PoolManager) × (add connect pm cfg ≡ ok new)
        × ((j : Key) → health new j ≡ (if key_eq cfg.name j then pool_health j p else health pm j))
        × ((j : Key)
            → get_submitter new j
              ≡ (if key_eq cfg.name j then some (new_smpp_submitter p) else get_submitter pm j))
  unfolding add add_smpp existed get_submitter health pool_health submitter_health
      new_smpp_submitter
  add-registers pm cfg p c absent e = (
    with_pool pm cfg p,
    ground (arith, c.same_submitters cfg.name, absent, e),
    λ j. ground (
      arith,
      shard_get-set cfg.name j p pm.pools,
      shard_get-set cfg.name j (new_smpp_submitter p) pm.submitters,
    ),
    λ j. shard_get-set cfg.name j (new_smpp_submitter p) pm.submitters,
  )

remove-IsConsistent :
    (pm : PoolManager) (name : Key) → IsConsistent pm → IsConsistent (after (remove pm name) pm)
unfolding remove
remove-IsConsistent pm name c = elim (Bool-cases (existed name pm.submitters)) [
  | inl e ↦ rw e (without-IsConsistent pm name c)
  | inr e ↦ rw (e, sym (c.same_submitters name), e) c
]

-- In a consistent manager where GetSubmitter finds a submitter under the name, Remove returns a
-- manager in which Health of the name is unhealthy, GetSubmitter finds nothing there, and both
-- answer for all other names as before.
pub remove-forgets :
    (pm : PoolManager) (name : Key) (sub : Submitter)
    → IsConsistent pm
    → get_submitter pm name ≡ some sub
    → (new : PoolManager) × (remove pm name ≡ ok new)
      × ((j : Key)
          → health new j ≡ (
              if key_eq name j
              then record { name = j; active_connections = 0; healthy = false }
              else health pm j))
      × ((j : Key) → get_submitter new j ≡ (if key_eq name j then none else get_submitter pm j))
unfolding remove existed get_submitter health
remove-forgets pm name sub c e = (
  without pm name,
  ground (arith, e),
  λ j. ground (
    arith,
    shard_get-delete name j pm.pools c.pools_distinct,
    shard_get-delete name j pm.submitters c.submitters_distinct,
  ),
  λ j. shard_get-delete name j pm.submitters c.submitters_distinct,
)

-- Calls of Add, with whatever its connection returns, Remove and Close, one after the other.
pub data Reach : PoolManager → Type 0 where
  starts : Reach new_pool_manager
  adds :
      {pm : PoolManager}
      → Reach pm
      → (connect : PoolSettings → Option Pool) (cfg : SouthboundPoolConfig)
      → Reach (after (add connect pm cfg) pm)
  removes : {pm : PoolManager} → Reach pm → (name : Key) → Reach (after (remove pm name) pm)
  closes : {pm : PoolManager} → Reach pm → Reach (close pm)

-- After any calls of Add, Remove and Close, failed ones included, no map holds a name twice, and
-- the three maps hold the same names.
pub Reach-IsConsistent : (pm : PoolManager) → Reach pm → IsConsistent pm
unfolding close
Reach-IsConsistent pm starts = new_pool_manager-IsConsistent
Reach-IsConsistent pm (adds {pm = old} r connect cfg) =
    add-IsConsistent connect old cfg (Reach-IsConsistent old r)
Reach-IsConsistent pm (removes {pm = old} r name) =
    remove-IsConsistent old name (Reach-IsConsistent old r)
Reach-IsConsistent pm (closes r) = new_pool_manager-IsConsistent

-- In a consistent manager a pool that Health calls healthy has a submitter, which is healthy.
pub healthy-get_submitter :
    (pm : PoolManager) (k : Key)
    → IsConsistent pm
    → (health pm k).healthy ≡ true
    → (s : Submitter) × (get_submitter pm k ≡ some s) × (s.is_healthy ≡ true)
unfolding health get_submitter existed submitter_health pool_health
healthy-get_submitter pm k c h = elim (Option-cases (shard_get k pm.submitters)) [
  | inr (s, e) ↦ (s, e, ground (arith, h, e))
  | inl e ↦ absurd (ground (arith, h, e, c.same_submitters k))
]
