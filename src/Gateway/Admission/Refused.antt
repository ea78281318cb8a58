-- ===== src/Gateway/Admission/Refused.antt =====
-- For which reasons HandleSubmit of gateway/router.go refuses a submit_sm of a configured connection.
use go_smsc.Prelude.{ℕ, ◌≡◌, ◌≢◌, ◌⊎◌, true, false, List, [], none, some, Result}
use go_smsc.Prelude.Int.{ℤ}
use go_smsc.Prelude.Keys.{Key}
use go_smsc.Gateway.Bodies.{parse_submit_sm_addresses}
use go_smsc.Gateway.ShardMap.{ShardMap, get}
use go_smsc.Gateway.Admission.{
  ConnectionConfig, whitelist, trim_plus, enforce_source, prefix_allowed, Admission, Rejection,
  blocked, admit,
}
use mathlib.Core.List.{Memᴰ}
use go_smsc.Gateway.Admission.Tests.{NoneFits}

-- The reasons: a whitelist of sources without the source, a blacklisted destination, and a list of
-- prefixes of which none is one of the destination, whose leading "+" does not count.
abbrev pub Unlisted : ConnectionConfig → Key → Type 0
Unlisted cfg source =
    (cfg.source_addr_mode ≡ whitelist)
    × (cfg.allowed_source_addrs ≢ [])
    × (¬ Memᴰ source cfg.allowed_source_addrs)

abbrev pub Blacklisted : (Key → ℕ) → ShardMap (Unit {0}) → Key → Type 0
Blacklisted fnv32a blacklist dest = (dest ≢ []) × (get fnv32a blacklist dest ≡ some tt)

abbrev pub Unreachable : ConnectionConfig → Key → Type 0
Unreachable cfg dest = (cfg.allowed_prefixes ≢ []) × NoneFits (trim_plus dest) cfg.allowed_prefixes

abbrev pub Refused : (Key → ℕ) → ShardMap (Unit {0}) → ConnectionConfig → Key → Key → Type 0
Refused fnv32a blacklist cfg source dest =
    Unlisted cfg source ⊎ (Blacklisted fnv32a blacklist dest ⊎ Unreachable cfg dest)

module _ (fnv32a : Key → ℕ) (blacklist : ShardMap (Unit {0})) (rate_limit : ℤ) (current : ℕ)
    (cfg : ConnectionConfig) (body : List ℕ) where
  abbrev source : Key
  source = (parse_submit_sm_addresses body).0

  abbrev dest : Key
  dest = (parse_submit_sm_addresses body).1

  abbrev result : Result Rejection Admission
  result = admit fnv32a blacklist rate_limit current (some (some cfg)) body

  -- The tests of admit as one.
  abbrev Stopped : Type 0
  Stopped =
      (enforce_source cfg source body ≡ none)
      ⊎ ((blocked fnv32a blacklist dest ≡ true) ⊎ (prefix_allowed cfg dest ≡ false))
