-- ===== src/Gateway/ShardMap/Laws.antt =====
-- ShardMap as a map with a counter: what Get finds after Set and Delete, and what Len counts.
use go_smsc.Prelude.{
  ℕ, zero, suc, ◌+◌, ◌≡◌, refl, false, Bool-cases, [], ◌∷◌, inl, inr, none, some, if◌then◌else◌,
  ltb, length, arith,
}
use go_smsc.Prelude.Keys.{Key, key_eq, key_eq→eq, key_eq_refl}
use go_smsc.Gateway.ShardMap.{
  num_shards, Shard, ShardMap, update, shard_get, shard_set, shard_delete, existed,
}

module _ {ℓ} {V : Type ℓ} where
  -- A key stands once in a shard.
  abbrev pub IsDistinct : Shard V → Type 0
  IsDistinct [] = Unit {0}
  IsDistinct ((k, v) ∷ s) = (existed k s ≡ false) × IsDistinct s

  pub shard_get-set :
      (k j : Key) (v : V) (s : Shard V)
      → shard_get j (shard_set k v s) ≡ (if key_eq k j then some v else shard_get j s)
  unfolding shard_get shard_set
  shard_get-set k j v [] = refl
  shard_get-set k j v ((i, w) ∷ s) =
      ground
        (arith, key_eq→eq i k, key_eq→eq i j, key_eq→eq k j, key_eq_refl j, shard_get-set k j v s)

  shard_delete-absent : (k : Key) (s : Shard V) → existed k s ≡ false → shard_get k s ≡ none
  unfolding existed
  shard_delete-absent k s h = ground arith

  pub shard_get-delete :
      (k j : Key) (s : Shard V)
      → IsDistinct s
      → shard_get j (shard_delete k s) ≡ (if key_eq k j then none else shard_get j s)
  unfolding shard_get shard_delete
  shard_get-delete k j [] d = ground arith
  shard_get-delete k j ((i, w) ∷ s) d = ground (
    arith,
    key_eq→eq i k,
    key_eq→eq i j,
    key_eq→eq k j,
    key_eq_refl j,
    shard_get-delete k j s d.1,
    shard_delete-absent j s,
    d.0,
  )

  pub shard_set-IsDistinct :
      (k : Key) (v : V) (s : Shard V) → IsDistinct s → IsDistinct (shard_set k v s)
  unfolding shard_set existed shard_get
  shard_set-IsDistinct k v [] d = (refl, tt)
  shard_set-IsDistinct k v ((i, w) ∷ s) d = elim (Bool-cases (key_eq i k)) [
    | inl e ↦ rw e (cc (d.0, key_eq→eq i k e), d.1)
    | inr e ↦ rw e (
      ground (arith, shard_get-set k i v s, key_eq→eq k i, key_eq_refl i, d.0),
      shard_set-IsDistinct k v s d.1,
    )
  ]

  pub shard_delete-IsDistinct :
      (k : Key) (s : Shard V) → IsDistinct s → IsDistinct (shard_delete k s)
  unfolding shard_delete existed
  shard_delete-IsDistinct k [] d = tt
  shard_delete-IsDistinct k ((i, w) ∷ s) d = elim (Bool-cases (key_eq i k)) [
    | inl e ↦ rw e d.1
    | inr e ↦
        rw e (ground (arith, shard_get-delete k i s d.1, d.0), shard_delete-IsDistinct k s d.1)
  ]

  pub length-shard_set :
      (k : Key) (v : V) (s : Shard V)
      → length (shard_set k v s) ≡ (if existed k s then length s else length s + 1)
  unfolding shard_set existed shard_get
  length-shard_set k v [] = omega arith
  length-shard_set k v ((i, w) ∷ s) = ground (arith, length-shard_set k v s)

  pub length-shard_delete :
      (k : Key) (s : Shard V)
      → length s ≡ (if existed k s then length (shard_delete k s) + 1 else length s)
  unfolding shard_delete existed shard_get
  length-shard_delete k [] = refl
  length-shard_delete k ((i, w) ∷ s) = ground (arith, length-shard_delete k s)

  -- The entries of the first n shards.
  unfoldable pub total_below : ℕ → (ℕ → Shard V) → ℕ
  total_below zero shards = 0
  total_below (suc n) shards = total_below n shards + length (shards n)

  pub total_below-update :
      (n i : ℕ) (s : Shard V) (shards : ℕ → Shard V)
      → total_below n (update shards i s) + (if ltb i n then length (shards i) else 0)
        ≡ total_below n shards + (if ltb i n then length s else 0)
  unfolding total_below update
  total_below-update zero i s shards = ground arith
  total_below-update (suc n) i s shards = ground (arith, total_below-update n i s shards)

  -- All entries.
  unfoldable pub total : ShardMap V → ℕ
  total sm = total_below num_shards sm.shards

  -- What the methods keep, between their steps too: no shard holds a key twice.
  abbrev pub IsValid : ShardMap V → Type 0
  IsValid sm = (i : ℕ) → IsDistinct (sm.shards i)
