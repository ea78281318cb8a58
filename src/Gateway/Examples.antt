-- ===== src/Gateway/Examples.antt =====
-- Concrete runs of the theorems on gateway/.
use go_smsc.Prelude.{ℕ, ◌≡◌, refl, [], ◌∷◌, ◌++◌}
use go_smsc.Prelude.Int.{pos, negsuc, ◌+ℤ◌}
use go_smsc.Prelude.Keys.{Key, key_eq}
use go_smsc.Smpp.Examples.{hi, number, hi-NoNul, number-NoNul}
use go_smsc.Smpp.Parsers.{parse_deliver_sm}
use go_smsc.Gateway.Bodies.{rewrite_submit_sm_source, build_deliver_sm_body}
use go_smsc.Gateway.Bodies.Rewrite.{submit_body, rewrite_submit_sm_source-submit_body}
use go_smsc.Gateway.Bodies.Built.{parse_deliver_sm-build_deliver_sm_body}
use go_smsc.Gateway.ShardMap.{
  ShardMap, new_shard_map, len, set_locked, delete_locked, add_count, shard_index, update, existed,
  shard_get, shard_set,
}
use go_smsc.Gateway.ShardMap.Laws.{IsValid, total}
use go_smsc.Gateway.ShardMap.Interleaving.{
  System, sum, enters, Reach, starts, steps, set_enters, delete_enters, counts, Reach-counted,
}

rewrite_submit_sm_source-submit_body_example :
    rewrite_submit_sm_source (submit_body [] 1 1 number (1 ∷ 1 ∷ (hi ++ 0 ∷ []))) hi 5 0
    ≡ submit_body [] 5 0 hi (1 ∷ 1 ∷ (hi ++ 0 ∷ []))
rewrite_submit_sm_source-submit_body_example =
    rewrite_submit_sm_source-submit_body [] number (1 ∷ 1 ∷ (hi ++ 0 ∷ [])) hi 1 1 5 0 tt
      number-NoNul

parse_deliver_sm-build_deliver_sm_body_example :
    parse_deliver_sm (build_deliver_sm_body number hi 4 hi)
    ≡ record { source_addr = number; dest_addr = hi; esm_class = 4; short_message = hi }
parse_deliver_sm-build_deliver_sm_body_example =
    parse_deliver_sm-build_deliver_sm_body number hi hi 4 number-NoNul hi-NoNul

-- A hash that tells short keys apart by their first byte.
abbrev first_byte : Key → ℕ
first_byte [] = 0
first_byte (b ∷ bs) = b

abbrev empty_map : ShardMap ℕ
empty_map = new_shard_map

-- A Set and then a Delete of one key have left their locks.
abbrev both_pending : System ℕ
both_pending =
    let after_set = enters [] (set_locked first_byte empty_map hi 7) in
    enters after_set.pending (delete_locked first_byte after_set.map hi)

-- The Delete adds to the counter first, which is then -1.
abbrev set_pending : System ℕ
set_pending = record { map = add_count both_pending.map (negsuc 0); pending = pos 1 ∷ [] }

set_pending-Reach : Reach first_byte set_pending
unfolding set_locked delete_locked new_shard_map shard_index update existed shard_get shard_set
    key_eq
set_pending-Reach =
    steps (steps (steps starts (set_enters _ hi 7)) (delete_enters _ hi))
      (counts both_pending [] (negsuc 0) (pos 1 ∷ []) refl)

Reach-counted_example :
    IsValid set_pending.map
    × (len set_pending.map +ℤ sum set_pending.pending ≡ pos (total set_pending.map))
Reach-counted_example = Reach-counted first_byte set_pending set_pending-Reach
