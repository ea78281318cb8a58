-- ===== src/Gateway/Admission/Examples.antt =====
-- Concrete runs of the theorems on the admission of a submit_sm.
use go_smsc.Prelude.{ℕ, ◌≡◌, refl, true, false, List, [], ◌∷◌, ◌++◌, some, ok}
use go_smsc.Prelude.Int.{pos}
use go_smsc.Prelude.Keys.{Key, key_eq, has_prefix}
use go_smsc.Smpp.Examples.{hi, number, hi-NoNul, number-NoNul}
use go_smsc.Gateway.Bodies.{rewrite_submit_sm_source}
use go_smsc.Gateway.Bodies.Rewrite.{submit_body, parse_submit_sm_addresses-submit_body}
use go_smsc.Gateway.ShardMap.{ShardMap, new_shard_map, get, shard_get}
use go_smsc.Gateway.Admission.{
  override, ConnectionConfig, Admission, any_prefix, trim_plus, enforce_source, prefix_allowed,
  limit_reached, limit_set, effective_tps, blocked, rate_checked, admit,
}
use go_smsc.Gateway.Admission.Forwarded.{Carries, admit-Carries}
use go_smsc.Gateway.Admission.Refused.{Refused}

-- The source "49" is forced, and destinations begin with "H".
abbrev config : ConnectionConfig
config = record {
  source_addr_mode = override;
  force_source_addr = number;
  force_source_ton = 1;
  force_source_npi = 1;
  default_source_addr = [];
  default_source_ton = 0;
  default_source_npi = 0;
  allowed_source_addrs = [];
  allowed_prefixes = (72 ∷ []) ∷ [];
  max_tps = pos 10;
}

-- From "Hi" to "Hi"
abbrev client_body : List ℕ
client_body = submit_body [] 5 0 hi (1 ∷ 1 ∷ (hi ++ 0 ∷ 9 ∷ []))

abbrev hash : Key → ℕ
hash k = 7

abbrev nobody : ShardMap (Unit {0})
nobody = new_shard_map

abbrev admitted : Admission
admitted = record {
  source_addr = number;
  dest_addr = hi;
  raw_body = rewrite_submit_sm_source client_body number 1 1;
  records_submit = true;
}

config-admits : admit hash nobody (pos 5) 9 (some (some config)) client_body ≡ ok admitted
unfolding admit enforce_source key_eq blocked get shard_get new_shard_map prefix_allowed any_prefix
    trim_plus has_prefix effective_tps limit_set limit_reached rate_checked
config-admits =
    rw (parse_submit_sm_addresses-submit_body [] hi hi (9 ∷ []) 5 0 1 1 tt hi-NoNul hi-NoNul) refl

admit-Carries_example :
    Carries admitted.raw_body number hi
    × (hi ≡ hi)
    × (blocked hash nobody hi ≡ false)
    × (prefix_allowed config hi ≡ true)
    × (limit_reached (effective_tps (pos 5) config) 9 ≡ false)
admit-Carries_example =
    admit-Carries [] hi (9 ∷ []) 5 0 1 1 tt hi-NoNul hash nobody (pos 5) 9 config hi admitted
      hi-NoNul number-NoNul tt config-admits
