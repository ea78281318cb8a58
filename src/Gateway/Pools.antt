-- ===== src/Gateway/Pools.antt =====
-- PoolManager of gateway/pool_manager.go, with SMPPSubmitter of gateway/smpp_submitter.go. Connecting
-- a pool is network work and a parameter here. A pool is seen through the number of its active
-- connections, as it is at the time of the call.
pub mod Laws
use go_smsc.Prelude.{
  ℕ, ◌+◌, Bool, true, false, not, List, [], ◌∷◌, ◌++◌, Option, none, some, ltb, ◌||◌, if◌then◌else◌,
  Result, ok, err, stuck, map,
}
use go_smsc.Prelude.Int.{ℤ, pos, negsuc}
use go_smsc.Prelude.Keys.{Key, key_eq}
use go_smsc.Gateway.ShardMap.{Shard, shard_get, shard_set, shard_delete, existed}

-- `bind_mode` and `interface_version` are texts in the source, each compared with the words here.
pub data BindModeText : Type 0 where
  transmitter_text receiver_text transceiver_text : BindModeText
  other_mode : Key → BindModeText

pub data VersionText : Type 0 where
  v34_text v50_text : VersionText
  other_version : Key → VersionText

pub record SouthboundPoolConfig : Type 0 where
  pub name : Key
  pub host : Key
  pub port : ℤ
  pub system_id : Key
  pub password : Key
  pub source_addr : Key
  pub connections : ℤ
  pub window_size : ℤ
  pub tls_enabled : Bool
  pub tls_insecure_skip_verify : Bool
  pub bind_mode : BindModeText
  pub interface_version : VersionText

pub data BindMode : Type 0 where
  bind_transceiver bind_transmitter bind_receiver : BindMode

-- What addSMPP passes to smpp.NewPool: smpp.Config and smpp.PoolConfig in one, without their
-- constant fields.
pub record PoolSettings : Type 0 where
  pub host : Key
  pub port : ℤ
  pub system_id : Key
  pub password : Key
  pub source_addr : Key
  pub tls_enabled : Bool
  pub tls_insecure_skip_verify : Bool
  pub bind_mode : BindMode
  pub interface_version : ℕ
  pub connections : ℤ
  pub window_size : ℤ

pub bind_mode_of : BindModeText → BindMode
bind_mode_of transmitter_text = bind_transmitter
bind_mode_of receiver_text = bind_receiver
bind_mode_of transceiver_text = bind_transceiver
bind_mode_of (other_mode t) = bind_transceiver

pub version_of : VersionText → ℕ
version_of v50_text = 80
version_of v34_text = 52
version_of (other_version t) = 52

-- `if n <= 0 { n = d }`
pub at_least_one_or : ℤ → ℤ → ℤ
at_least_one_or (pos n) d = if ltb 0 n then pos n else d
at_least_one_or (negsuc n) d = d

pub settings_of : SouthboundPoolConfig → PoolSettings
unfolding bind_mode_of version_of at_least_one_or
settings_of cfg = record {
  host = cfg.host;
  port = cfg.port;
  system_id = cfg.system_id;
  password = cfg.password;
  source_addr = cfg.source_addr;
  tls_enabled = cfg.tls_enabled;
  tls_insecure_skip_verify = cfg.tls_insecure_skip_verify;
  bind_mode = bind_mode_of cfg.bind_mode;
  interface_version = version_of cfg.interface_version;
  connections = at_least_one_or cfg.connections (pos 2);
  window_size = at_least_one_or cfg.window_size (pos 10);
}

-- A connected smpp.Pool: which one it is, and its active connections.
pub record Pool : Type 0 where
  pub handle : ℕ
  pub active_connections : ℕ

-- The Submitter interface, as far as routing asks it.
pub record Submitter : Type 0 where
  pub handle : ℕ
  pub active_connections : ℕ
  pub is_healthy : Bool

unfoldable pub new_smpp_submitter : Pool → Submitter
new_smpp_submitter p = record {
  handle = p.handle;
  active_connections = p.active_connections;
  is_healthy = ltb 0 p.active_connections;
}

pub record PoolHealth : Type 0 where
  pub name : Key
  pub active_connections : ℕ
  pub healthy : Bool

-- The three Go maps.
pub record PoolManager : Type 0 where
  pub pools : Shard Pool
  pub submitters : Shard Submitter
  pub configs : Shard SouthboundPoolConfig

pub data PoolError : Type 0 where
  already_exists not_found connect_failed : PoolError

unfoldable pub new_pool_manager : PoolManager
new_pool_manager = record { pools = []; submitters = []; configs = [] }

module _ (connect : PoolSettings → Option Pool) where
  pub add_smpp : PoolManager → SouthboundPoolConfig → Result PoolError PoolManager
  unfolding new_smpp_submitter settings_of
  add_smpp pm cfg = elim (connect (settings_of cfg)) [
    | none ↦ err connect_failed
    | some p ↦ ok (record {
      pools = shard_set cfg.name p pm.pools;
      submitters = shard_set cfg.name (new_smpp_submitter p) pm.submitters;
      configs = shard_set cfg.name cfg pm.configs;
    })
  ]

  pub add : PoolManager → SouthboundPoolConfig → Result PoolError PoolManager
  unfolding add_smpp
  add pm cfg =
      if existed cfg.name pm.submitters
      then err already_exists
      else if existed cfg.name pm.pools
      then err already_exists
      else add_smpp pm cfg

pub get_pool : PoolManager → Key → Option Pool
get_pool pm name = shard_get name pm.pools

unfoldable pub get_submitter : PoolManager → Key → Option Submitter
get_submitter pm name = shard_get name pm.submitters

pub get_config : PoolManager → Key → Option SouthboundPoolConfig
get_config pm name = shard_get name pm.configs

-- Both branches of Remove; a missing key makes `delete` do nothing.
pub remove : PoolManager → Key → Result PoolError PoolManager
remove pm name =
    if existed name pm.submitters
    then ok (record {
      pools = shard_delete name pm.pools;
      submitters = shard_delete name pm.submitters;
      configs = shard_delete name pm.configs;
    })
    else if existed name pm.pools
    then ok
        (record pm { pools = shard_delete name pm.pools; configs = shard_delete name pm.configs })
    else err not_found

unfoldable pub submitter_health : Key → Submitter → PoolHealth
submitter_health name sub = record {
  name = name;
  active_connections = sub.active_connections;
  healthy = sub.is_healthy;
}

unfoldable pub pool_health : Key → Pool → PoolHealth
pool_health name p = record {
  name = name;
  active_connections = p.active_connections;
  healthy = ltb 0 p.active_connections;
}

unfoldable pub health : PoolManager → Key → PoolHealth
unfolding submitter_health pool_health
health pm name = elim (shard_get name pm.submitters) [
  | some sub ↦ submitter_health name sub
  | none ↦ elim (shard_get name pm.pools) [
    | some p ↦ pool_health name p
    | none ↦ record { name = name; active_connections = 0; healthy = false }
  ]
]

-- The pools that `seen` does not name.
pub legacy_health : Shard Pool → Shard Submitter → List PoolHealth
unfolding pool_health
legacy_health [] seen = []
legacy_health ((name, p) ∷ ps) seen =
    let rest = legacy_health ps seen in
    if existed name seen then rest else pool_health name p ∷ rest

-- In the order of the association lists; Go's is unspecified.
pub all_health : PoolManager → List PoolHealth
unfolding submitter_health legacy_health
all_health pm =
    map (λ e. submitter_health e.0 e.1) pm.submitters ++ legacy_health pm.pools pm.submitters

-- Close empties the maps.
pub close : PoolManager → PoolManager
unfolding new_pool_manager
close pm = new_pool_manager
