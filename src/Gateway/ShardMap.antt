-- ===== src/Gateway/ShardMap.antt =====
-- ShardMap of gateway/shardmap.go. The hash is the FNV-1a of Go's standard library, a parameter
-- here; keys are byte lists. Each method is cut where its lock is released, since other calls may
-- run there: first the shard, then the counter.
pub mod Laws
pub mod Steps
pub mod Interleaving
use go_smsc.Prelude.{
  ℕ, zero, suc, ◌+◌, ◌-◌, ◌%◌, Bool, true, false, List, [], ◌∷◌, Option, none, some, ◌==◌, ◌&&◌,
  if◌then◌else◌,
}
use go_smsc.Prelude.Int.{ℤ, pos, negsuc, ◌+ℤ◌}
use go_smsc.Prelude.Keys.{Key, key_eq}

abbrev pub num_shards : ℕ
num_shards = 64

-- One shard's Go map, as an association list with distinct keys.
abbrev pub Shard {ℓ} : Type ℓ → Type ℓ
Shard V = List (Key × V)

-- `count` is the atomic counter, which other calls may see below 0.
pub record ShardMap {ℓ} (V : Type ℓ) : Type ℓ where
  pub shards : ℕ → Shard V
  pub count : ℤ

unfoldable pub update {ℓ} : {A : Type ℓ} → (ℕ → A) → ℕ → A → ℕ → A
update shards i s j = if i == j then s else shards j

module _ {ℓ} {V : Type ℓ} where
  unfoldable pub shard_get : Key → Shard V → Option V
  shard_get k [] = none
  shard_get k ((j, v) ∷ s) = if key_eq j k then some v else shard_get k s

  unfoldable pub shard_set : Key → V → Shard V → Shard V
  shard_set k v [] = (k, v) ∷ []
  shard_set k v ((j, w) ∷ s) = if key_eq j k then (k, v) ∷ s else (j, w) ∷ shard_set k v s

  unfoldable pub shard_delete : Key → Shard V → Shard V
  shard_delete k [] = []
  shard_delete k ((j, w) ∷ s) = if key_eq j k then s else (j, w) ∷ shard_delete k s

  unfoldable pub existed : Key → Shard V → Bool
  existed k s = elim (shard_get k s) [ none ↦ false | some v ↦ true ]

  unfoldable pub new_shard_map : ShardMap V
  new_shard_map = record { shards = λ i. []; count = pos 0 }

  -- `sm.count.Add(d)`
  unfoldable pub add_count : ShardMap V → ℤ → ShardMap V
  add_count sm d = record sm { count = sm.count +ℤ d }

  pub len : ShardMap V → ℤ
  len sm = sm.count

-- `h.Sum32() & (numShards - 1)`, with 64 shards the remainder by 64.
unfoldable pub shard_index : (Key → ℕ) → Key → ℕ
shard_index fnv32a key = fnv32a key % num_shards

module _ {ℓ} {V : Type ℓ} (fnv32a : Key → ℕ) where
  unfoldable pub get : ShardMap V → Key → Option V
  unfolding shard_index
  get sm key = shard_get key (sm.shards (shard_index fnv32a key))

  -- What Set does under the lock, and the delta that it then adds to the counter:
  -- `if !existed { sm.count.Add(1) }`.
  unfoldable pub set_locked : ShardMap V → Key → V → ShardMap V × ℤ
  unfolding shard_index
  set_locked sm key val =
      let i = shard_index fnv32a key in
      let there = existed key (sm.shards i) in
      (
        record sm { shards = update sm.shards i (shard_set key val (sm.shards i)) },
        if there then pos 0 else pos 1,
      )

  pub set : ShardMap V → Key → V → ShardMap V
  unfolding set_locked add_count
  set sm key val = let (sm', delta) = set_locked sm key val in add_count sm' delta

  unfoldable pub delete_locked : ShardMap V → Key → ShardMap V × ℤ
  unfolding shard_index
  delete_locked sm key =
      let i = shard_index fnv32a key in
      let there = existed key (sm.shards i) in
      let without = record sm { shards = update sm.shards i (shard_delete key (sm.shards i)) } in
      (if there then without else sm, if there then negsuc 0 else pos 0)

  pub delete : ShardMap V → Key → ShardMap V
  unfolding delete_locked add_count
  delete sm key = let (sm', delta) = delete_locked sm key in add_count sm' delta
