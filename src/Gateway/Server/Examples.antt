-- ===== src/Gateway/Server/Examples.antt =====
-- The theorems about gateway/server.go where a system "E" binds a second time, on connection 1, and its
-- first connection 0 is then gone.
use go_smsc.Prelude.{ℕ, ◌≡◌, refl, true, false, [], ◌∷◌, none, some}
use go_smsc.Prelude.Int.{pos}
use go_smsc.Prelude.Keys.{Key, key_eq}
use go_smsc.Gateway.ShardMap.{update, shard_get, shard_set}
use go_smsc.Gateway.Server.{
  Connection, Server, close, bind_count, too_many, register, on_bind, authenticated, handle_exit,
  disconnected_at, Reach, start, binds,
}
use go_smsc.Gateway.Server.Laws.{without, Reach-entry, handle_exit-without}

abbrev quiet : ℕ → Connection
quiet h = record { id = []; system_id = []; bound = false; closed = false; max_binds = pos 0 }

abbrev empty_server : Server
empty_server = record { conns = []; disconnects = []; heap = quiet }

abbrev engine : Key
engine = 69 ∷ []

abbrev once_bound : Server
once_bound = on_bind (authenticated empty_server 0 engine (pos 0)) 0 engine

abbrev twice_bound : Server
twice_bound = on_bind (authenticated once_bound 1 engine (pos 0)) 1 engine

second_unbound : (once_bound.heap 1).bound ≡ false
unfolding on_bind authenticated register close bind_count too_many update shard_get
second_unbound = refl

twice_bound-Reach : Reach twice_bound
twice_bound-Reach =
    binds once_bound 1 engine (pos 0) (binds empty_server 0 engine (pos 0) (start quiet) refl)
      second_unbound

second_listed : shard_get engine twice_bound.conns ≡ some 1
unfolding on_bind authenticated register close bind_count too_many update shard_get shard_set key_eq
second_listed = refl

Reach-entry_example :
    ((twice_bound.heap 1).id ≡ engine)
    × ((twice_bound.heap 1).bound ≡ true)
    × (disconnected_at twice_bound engine ≡ none)
Reach-entry_example = Reach-entry twice_bound engine 1 twice_bound-Reach second_listed

handle_exit-without_example :
    shard_get engine (handle_exit twice_bound 0 500).conns
    ≡ without 0 (shard_get engine twice_bound.conns)
handle_exit-without_example = handle_exit-without twice_bound 0 500 engine twice_bound-Reach
