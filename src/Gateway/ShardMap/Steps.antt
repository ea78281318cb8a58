-- ===== src/Gateway/ShardMap/Steps.antt =====
-- Set, Delete and Get as calls that run one after the other, and as interleaved steps: each call
-- first works on its shard under the lock and adds to the counter later.
use go_smsc.Prelude.{
  ℕ, ◌%◌, ◌<◌, ◌≡◌, ap, Bool-cases, inl, inr, none, some, ◌==◌, if◌then◌else◌, lt→ltb, arith,
}
use go_smsc.Prelude.Int.{pos, ◌+ℤ◌}
use go_smsc.Prelude.Keys.{Key, key_eq, key_eq→eq}
use go_smsc.Gateway.ShardMap.Laws.{
  IsDistinct, IsValid, total, total_below-update, shard_get-set, shard_get-delete,
  shard_set-IsDistinct, shard_delete-IsDistinct, length-shard_set, length-shard_delete,
}
use go_smsc.Gateway.ShardMap.{
  num_shards, Shard, ShardMap, update, shard_set, shard_delete, existed, shard_index, get,
  set_locked, set, delete_locked, delete,
}

index_below : (fnv32a : Key → ℕ) (k : Key) → shard_index fnv32a k < num_shards
unfolding shard_index
index_below fnv32a k = omega arith

module _ {V : Type 0} (fnv32a : Key → ℕ) where
  -- After Set, Get finds the new value under the key, and under any other key what it found before.
  pub get-set :
      (sm : ShardMap V) (k j : Key) (v : V)
      → get fnv32a (set fnv32a sm k v) j ≡ (if key_eq k j then some v else get fnv32a sm j)
  unfolding get set shard_index update
  get-set sm k j v = ground (
    arith,
    shard_get-set k j v (sm.shards (fnv32a k % num_shards)),
    ap (λ n. fnv32a n % num_shards) {x = k} {y = j},
    key_eq→eq k j,
  )

  -- In a map where no shard holds a key twice, after Delete, Get finds nothing under the key, and
  -- under any other key what it found before.
  pub get-delete :
      (sm : ShardMap V) (k j : Key)
      → IsValid sm
      → get fnv32a (delete fnv32a sm k) j ≡ (if key_eq k j then none else get fnv32a sm j)
  unfolding get delete delete_locked existed shard_index update
  get-delete sm k j valid = ground (
    arith,
    shard_get-delete k j (sm.shards (fnv32a k % num_shards)) (valid (fnv32a k % num_shards)),
    ap (λ n. fnv32a n % num_shards) {x = k} {y = j},
    key_eq→eq k j,
  )

  update-IsDistinct :
      (shards : ℕ → Shard V) (i : ℕ) (s : Shard V)
      → ((j : ℕ) → IsDistinct (shards j))
      → IsDistinct s
      → (j : ℕ) → IsDistinct (update shards i s j)
  unfolding update
  update-IsDistinct shards i s valid d j = elim (Bool-cases (i == j)) [
    | inl e ↦ rw e d
    | inr e ↦ rw e (valid j)
  ]

  pub set_locked-IsValid :
      (sm : ShardMap V) (k : Key) (v : V) → IsValid sm → IsValid (set_locked fnv32a sm k v).0
  unfolding set_locked
  set_locked-IsValid sm k v valid =
      let i = shard_index fnv32a k in
      update-IsDistinct sm.shards i _ valid (shard_set-IsDistinct k v (sm.shards i) (valid i))

  pub delete_locked-IsValid :
      (sm : ShardMap V) (k : Key) → IsValid sm → IsValid (delete_locked fnv32a sm k).0
  unfolding delete_locked
  delete_locked-IsValid sm k valid =
      let i = shard_index fnv32a k in
      elim (Bool-cases (existed k (sm.shards i))) [
        | inl e ↦ rw e (
            update-IsDistinct sm.shards i _ valid
              (shard_delete-IsDistinct k (sm.shards i) (valid i)))
        | inr e ↦ rw e valid
      ]

  pub set_locked-total :
      (sm : ShardMap V) (k : Key) (v : V)
      → pos (total (set_locked fnv32a sm k v).0) ≡ pos (total sm) +ℤ (set_locked fnv32a sm k v).1
  unfolding set_locked total ◌+ℤ◌
  set_locked-total sm k v =
      let i = shard_index fnv32a k in
      let s = shard_set k v (sm.shards i) in
      ground (
        arith,
        total_below-update num_shards i s sm.shards,
        length-shard_set k v (sm.shards i),
        index_below fnv32a k,
        lt→ltb i num_shards,
      )

  pub delete_locked-total :
      (sm : ShardMap V) (k : Key)
      → pos (total (delete_locked fnv32a sm k).0) ≡ pos (total sm) +ℤ (delete_locked fnv32a sm k).1
  unfolding delete_locked total ◌+ℤ◌
  delete_locked-total sm k =
      let i = shard_index fnv32a k in
      let s = shard_delete k (sm.shards i) in
      ground (
        arith,
        total_below-update num_shards i s sm.shards,
        length-shard_delete k (sm.shards i),
        index_below fnv32a k,
        lt→ltb i num_shards,
      )
