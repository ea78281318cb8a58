-- ===== src/Gateway/Admission.antt =====
-- The first half of HandleSubmit of gateway/router.go: what happens to a submit_sm before it is
-- acknowledged. The blacklist is the router's sharded map. Logging and counters are left out; that a
-- submit is counted against the rate is the `true` of an admission.
pub mod Forwarded
pub mod Tests
pub mod Refused
pub mod Examples
use go_smsc.Prelude.{
  ℕ, Bool, true, false, not, ◌&&◌, ◌||◌, List, [], ◌∷◌, Option, none, some, leb, ltb, ◌==◌,
  if◌then◌else◌, length, Result, ok, err,
}
use go_smsc.Prelude.Int.{ℤ, pos, negsuc}
use go_smsc.Prelude.Keys.{Key, key_eq, has_prefix}
use go_smsc.Gateway.Bodies.{parse_submit_sm_addresses, rewrite_submit_sm_source}
use go_smsc.Gateway.ShardMap.{ShardMap, get}

-- `passthrough` stands for every other text too.
pub data SourceAddrMode : Type 0 where
  passthrough default_source override whitelist : SourceAddrMode

-- The fields of ConnectionConfig that the admission reads.
pub record ConnectionConfig : Type 0 where
  pub source_addr_mode : SourceAddrMode
  pub force_source_addr : Key
  pub force_source_ton : ℕ
  pub force_source_npi : ℕ
  pub default_source_addr : Key
  pub default_source_ton : ℕ
  pub default_source_npi : ℕ
  pub allowed_source_addrs : List Key
  pub allowed_prefixes : List Key
  pub max_tps : ℤ

pub data Rejection : Type 0 where
  status_submit_fail status_throttled : Rejection

unfoldable pub any_equal : Key → List Key → Bool
any_equal key [] = false
any_equal key (a ∷ allowed) = key_eq a key || any_equal key allowed

unfoldable pub any_prefix : Key → List Key → Bool
any_prefix dest [] = false
any_prefix dest (p ∷ prefixes) = has_prefix dest p || any_prefix dest prefixes

-- `strings.TrimPrefix(destAddr, "+")`
unfoldable pub trim_plus : Key → Key
trim_plus [] = []
trim_plus (b ∷ s) = if b == 43 then s else b ∷ s

-- The source address and the body that go on; `none` where the whitelist rejects.
unfoldable pub enforce_source : ConnectionConfig → Key → List ℕ → Option (Key × List ℕ)
unfolding any_equal
enforce_source cfg source body = elim cfg.source_addr_mode [
  | passthrough ↦ some (source, body)
  | override ↦
      if key_eq cfg.force_source_addr []
      then some (source, body)
      else some (
        cfg.force_source_addr,
        rewrite_submit_sm_source body cfg.force_source_addr cfg.force_source_ton
            cfg.force_source_npi,
      )
  | default_source ↦
      if key_eq source [] && not (key_eq cfg.default_source_addr [])
      then some (
        cfg.default_source_addr,
        rewrite_submit_sm_source body cfg.default_source_addr cfg.default_source_ton
            cfg.default_source_npi,
      )
      else some (source, body)
  | whitelist ↦
      if length cfg.allowed_source_addrs == 0 || any_equal source cfg.allowed_source_addrs
      then some (source, body)
      else none
]

unfoldable pub prefix_allowed : ConnectionConfig → Key → Bool
unfolding any_prefix trim_plus
prefix_allowed cfg dest =
    length cfg.allowed_prefixes == 0 || any_prefix (trim_plus dest) cfg.allowed_prefixes

-- Whether a rate limit is set and reached: `limit > 0 && current >= limit`.
unfoldable pub limit_reached : ℤ → ℕ → Bool
limit_reached (pos n) current = ltb 0 n && leb n current
limit_reached (negsuc n) current = false

unfoldable pub limit_set : ℤ → Bool
limit_set (pos n) = ltb 0 n
limit_set (negsuc n) = false

-- The connection's own limit where it is set, else the router's.
unfoldable pub effective_tps : ℤ → ConnectionConfig → ℤ
unfolding limit_set
effective_tps rate_limit cfg = if limit_set cfg.max_tps then cfg.max_tps else rate_limit

-- The connection: `none` where GetConnection finds none, `some none` where it has no configuration.
abbrev pub Conn : Type 0
Conn = Option (Option ConnectionConfig)

pub record Admission : Type 0 where
  pub source_addr : Key
  pub dest_addr : Key
  pub raw_body : List ℕ
  pub records_submit : Bool

unfoldable pub blocked : (Key → ℕ) → ShardMap (Unit {0}) → Key → Bool
blocked fnv32a blacklist dest =
    if key_eq dest []
    then false
    else elim (get fnv32a blacklist dest) [ some u ↦ true | none ↦ false ]

-- The rate check; the first argument says whether there is a connection.
unfoldable pub rate_checked : Bool → ℤ → ℕ → Key → Key → List ℕ → Result Rejection Admission
unfolding limit_reached limit_set
rate_checked connected limit current_tps source dest body =
    if connected && limit_reached limit current_tps
    then err status_throttled
    else ok (record {
      source_addr = source;
      dest_addr = dest;
      raw_body = body;
      records_submit = connected && limit_set limit;
    })

module _ (fnv32a : Key → ℕ) (blacklist : ShardMap (Unit {0})) (rate_limit : ℤ)
    (current_tps : ℕ) where
  unfoldable pub admit : Conn → List ℕ → Result Rejection Admission
  unfolding enforce_source prefix_allowed effective_tps blocked rate_checked
  admit conn body =
      let (source, dest) = parse_submit_sm_addresses body in
      elim conn [
        | none ↦
            if blocked fnv32a blacklist dest
            then err status_submit_fail
            else rate_checked false rate_limit current_tps source dest body
        | some none ↦
            if blocked fnv32a blacklist dest
            then err status_submit_fail
            else rate_checked true rate_limit current_tps source dest body
        | some (some cfg) ↦ elim (enforce_source cfg source body) [
          | none ↦ err status_submit_fail
          | some (source', body') ↦
              if blocked fnv32a blacklist dest
              then err status_submit_fail
              else if not (prefix_allowed cfg dest)
              then err status_submit_fail
              else rate_checked true (effective_tps rate_limit cfg) current_tps source' dest body'
        ]
      ]
