-- ===== src/Gateway/Server.antt =====
-- The table of connections of gateway/server.go. A connection is a handle into a heap, since the server,
-- the router and the connection's own goroutine share it: `conns` of the source maps identifiers to
-- pointers. Metrics and logging are left out.
pub mod Binding
pub mod Laws
pub mod Examples
use go_smsc.Prelude.{
  ℕ, zero, suc, ◌+◌, ◌≡◌, Bool, true, false, ◌&&◌, ◌||◌, List, [], ◌∷◌, Option, none, some, leb,
  ltb, ◌==◌, if◌then◌else◌,
}
use go_smsc.Prelude.Int.{ℤ, pos, negsuc}
use go_smsc.Prelude.Keys.{Key, key_eq}
use go_smsc.Gateway.ShardMap.{Shard, update, shard_get, shard_set, shard_delete, existed}

-- `max_binds` is that of the connection's configuration, 0 without one; `closed` is the socket's.
pub record Connection : Type 0 where
  pub id : Key
  pub system_id : Key
  pub bound : Bool
  pub closed : Bool
  pub max_binds : ℤ

pub record Server : Type 0 where
  pub conns : Shard ℕ
  pub disconnects : Shard ℕ
  pub heap : ℕ → Connection

-- `_ = c.Close()`
unfoldable pub close : (ℕ → Connection) → ℕ → ℕ → Connection
close heap h = update heap h (record (heap h) { closed = true })

-- Of the connections in the table, the bound ones of a system.
unfoldable pub bind_count : (ℕ → Connection) → Key → Shard ℕ → ℕ
bind_count heap system_id [] = 0
bind_count heap system_id ((k, h) ∷ conns) =
    let rest = bind_count heap system_id conns in
    if key_eq (heap h).system_id system_id && (heap h).bound then rest + 1 else rest

-- `max_binds > 0 && bindCount >= max_binds`
unfoldable pub too_many : ℤ → ℕ → Bool
too_many (pos max) count = ltb 0 max && leb max count
too_many (negsuc n) count = false

-- The connection enters the table under its system's name, and the one that it replaces is closed.
unfoldable pub register : Server → ℕ → Key → Server
unfolding close
register s h system_id =
    let named = update s.heap h (record (s.heap h) { id = system_id }) in
    record {
      conns = shard_set system_id h s.conns;
      disconnects = shard_delete system_id s.disconnects;
      heap = elim (shard_get system_id s.conns) [ none ↦ named | some old ↦ close named old ];
    }

unfoldable pub on_bind : Server → ℕ → Key → Server
unfolding bind_count too_many register close
on_bind s h system_id =
    if too_many (s.heap h).max_binds (bind_count s.heap system_id s.conns)
    then record s { heap = close s.heap h }
    else register s h system_id

-- What handleBind of gateway/connection.go does to a connection that it lets in.
unfoldable pub authenticated : Server → ℕ → Key → ℤ → Server
authenticated s h system_id max_binds = record s {
  heap =
      update s.heap h
        (record (s.heap h) { system_id = system_id; bound = true; max_binds = max_binds });
}

-- Whether the table has this connection under this name.
unfoldable pub stands : Option ℕ → ℕ → Bool
stands none h = false
stands (some existing) h = existing == h

-- The deferred function of handleConnection.
unfoldable pub handle_exit : Server → ℕ → ℕ → Server
unfolding stands close
handle_exit s h now =
    let c = s.heap h in
    let left = record s {
      conns = shard_delete c.id s.conns;
      disconnects = shard_set c.id now s.disconnects;
      heap = close s.heap h;
    } in
    if c.bound && stands (shard_get c.id s.conns) h
    then left
    else record s { heap = close s.heap h }

unfoldable pub get_connection : Server → Key → Option ℕ
get_connection s conn_id = elim (shard_get conn_id s.conns) [
  | none ↦ none
  | some h ↦ if (s.heap h).bound then some h else none
]

-- DisconnectedAt
unfoldable pub disconnected_at : Server → Key → Option ℕ
disconnected_at s conn_id = shard_get conn_id s.disconnects

-- A server's life: connections come, bind once at most, and go, in any order.
pub data Reach : Server → Type 0 where
  start : (heap : ℕ → Connection) → Reach (record { conns = []; disconnects = []; heap = heap })
  accepts :
      (s : Server) (h : ℕ) (c : Connection)
      → Reach s
      → (s.heap h).bound ≡ false
      → c.bound ≡ false
      → Reach (record s { heap = update s.heap h c })
  binds :
      (s : Server) (h : ℕ) (system_id : Key) (max_binds : ℤ)
      → Reach s
      → (s.heap h).bound ≡ false
      → Reach (on_bind (authenticated s h system_id max_binds) h system_id)
  exits : (s : Server) (h now : ℕ) → Reach s → Reach (handle_exit s h now)
