-- ===== src/Gateway/ShardMap/Interleaving.antt =====
-- Set and Delete as concurrent calls: each first works on its shard under the lock and adds to the
-- counter later, with steps of other calls between.
use go_smsc.Prelude.{ℕ, ◌≡◌, refl, sym, ap, ◌∙◌, List, [], ◌∷◌, ◌++◌, arith}
use go_smsc.Prelude.Int.{ℤ, pos, ◌+ℤ◌, +ℤ_swap, +ℤ_assoc, +ℤ_comm, +ℤ_zero}
use go_smsc.Prelude.Keys.{Key}
use go_smsc.Gateway.ShardMap.Laws.{IsValid, total, total_below}
use go_smsc.Gateway.ShardMap.Steps.{
  set_locked-IsValid, delete_locked-IsValid, set_locked-total, delete_locked-total,
}
use go_smsc.Gateway.ShardMap.{ShardMap, new_shard_map, add_count, len, set_locked, delete_locked}

-- The map, and the deltas of the calls that have left their lock and not yet added to the counter.
pub record System (V : Type 0) : Type 0 where
  pub map : ShardMap V
  pub pending : List ℤ

abbrev pub sum : List ℤ → ℤ
sum [] = pos 0
sum (d ∷ ds) = d +ℤ sum ds

sum-++ :
    (front : List ℤ) (d : ℤ) (back : List ℤ) → sum (front ++ d ∷ back) ≡ d +ℤ sum (front ++ back)
sum-++ [] d back = refl
sum-++ (e ∷ front) d back = rw (sum-++ front d back) (+ℤ_swap e d _)

abbrev pub enters : {V : Type 0} → List ℤ → ShardMap V × ℤ → System V
enters ds (sm, d) = record { map = sm; pending = d ∷ ds }

module _ {V : Type 0} (fnv32a : Key → ℕ) where
  pub data Step : System V → System V → Type 0 where
    set_enters :
        (s : System V) (k : Key) (v : V) → Step s (enters s.pending (set_locked fnv32a s.map k v))
    delete_enters :
        (s : System V) (k : Key) → Step s (enters s.pending (delete_locked fnv32a s.map k))
    counts :
        (s : System V) (front : List ℤ) (d : ℤ) (back : List ℤ)
        → s.pending ≡ front ++ d ∷ back
        → Step s (record { map = add_count s.map d; pending = front ++ back })

  pub data Reach : System V → Type 0 where
    starts : Reach (record { map = new_shard_map; pending = [] })
    steps : {s t : System V} → Reach s → Step s t → Reach t

  abbrev Counted : System V → Type 0
  Counted s = IsValid s.map × (len s.map +ℤ sum s.pending ≡ pos (total s.map))

  delete_locked-len : (sm : ShardMap V) (k : Key) → len (delete_locked fnv32a sm k).0 ≡ len sm
  unfolding len delete_locked
  delete_locked-len sm k = ground arith

  entered :
      (sm sm' : ShardMap V) (d : ℤ) (ds : List ℤ)
      → len sm' ≡ len sm
      → pos (total sm') ≡ pos (total sm) +ℤ d
      → len sm +ℤ sum ds ≡ pos (total sm)
      → len sm' +ℤ (d +ℤ sum ds) ≡ pos (total sm')
  entered sm sm' d ds kept e h =
      rw (kept, e, +ℤ_swap (len sm) d (sum ds), h) (+ℤ_comm d (pos (total sm)))

  counted :
      (sm : ShardMap V) (d : ℤ) (ds front back : List ℤ)
      → ds ≡ front ++ d ∷ back
      → len sm +ℤ sum ds ≡ pos (total sm)
      → len (add_count sm d) +ℤ sum (front ++ back) ≡ pos (total (add_count sm d))
  unfolding len add_count total
  counted sm d ds front back e h =
      rw (+ℤ_assoc sm.count d (sum (front ++ back)), sym (sum-++ front d back), sym e) h

  Step-Counted : {s t : System V} → Step s t → Counted s → Counted t
  unfolding len add_count set_locked delete_locked
  Step-Counted (set_enters s k v) (valid, h) = (
    set_locked-IsValid fnv32a s.map k v valid,
    entered s.map _ _ s.pending refl (set_locked-total fnv32a s.map k v) h,
  )
  Step-Counted (delete_enters s k) (valid, h) = (
    delete_locked-IsValid fnv32a s.map k valid,
    entered s.map _ _ s.pending (delete_locked-len s.map k) (delete_locked-total fnv32a s.map k) h,
  )
  Step-Counted (counts s front d back e) (valid, h) =
      (valid, counted s.map d s.pending front back e h)

  -- In every state that steps of Set and Delete reach, however their calls interleave, no shard
  -- holds a key twice, and the counter together with the additions still to come is the number of
  -- entries.
  pub Reach-counted :
      (s : System V) → Reach s → IsValid s.map × (len s.map +ℤ sum s.pending ≡ pos (total s.map))
  unfolding len new_shard_map total ◌+ℤ◌ total_below
  Reach-counted s starts = ((λ i. tt), refl)
  Reach-counted t (steps {s = s} r step) = Step-Counted step (Reach-counted s r)

  -- In a reachable state where no call is between its lock and its addition, Len is the number of
  -- entries.
  pub len-quiescent : (s : System V) → Reach s → s.pending ≡ [] → len s.map ≡ pos (total s.map)
  len-quiescent s r e =
      let (valid, h) = Reach-counted s r in
      sym (+ℤ_zero (len s.map)) ∙ sym (ap (λ p. len s.map +ℤ sum p) e) ∙ h
