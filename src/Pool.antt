-- ===== src/Pool.antt =====
-- pkg/federation/connection_pool.go: one connection per domain, with a circuit breaker. What gRPC
-- says of a connection, which a number names, comes in with each call; dialing is a parameter.
use collective.Prelude.{
  ℕ, ◌+◌, ◌-◌, ◌*◌, Bool, true, false, not, ◌&&◌, Option, none, some, List, [], ◌∷◌, if◌then◌else◌,
  ◌==◌, ltb, leb, map,
}
use collective.Text.{Text}
use collective.Dict.{Dict, lookup, insert}

-- CircuitState
pub data CircuitState : Type 0 where
  circuit_closed circuit_open circuit_half_open : CircuitState

-- The states of a gRPC connection.
pub data Connectivity : Type 0 where
  idle connecting ready transient_failure shutdown : Connectivity

-- PooledConnection
pub record PooledConnection : Type 0 where
  pub conn : ℕ
  pub created : ℕ
  pub last_used : ℕ
  pub use_count : ℕ
  pub is_healthy : Bool
  pub failures : ℕ
  pub last_failure : ℕ
  pub circuit_state : CircuitState

-- The connections of a ConnectionPool, and the time after which an idle one is closed
pub record ConnectionPool : Type 0 where
  pub connections : Dict PooledConnection
  pub idle_timeout : ℕ

-- What gRPC does at a time: it dials an endpoint of a domain, and tells a connection's state.
pub record Grpc : Type 0 where
  pub dial : Text → Text → Option ℕ
  pub get_state : ℕ → Connectivity
  pub now : ℕ

abbrev pub is_open : CircuitState → Bool
is_open circuit_closed = false
is_open circuit_open = true
is_open circuit_half_open = false

-- TransientFailure or Shutdown
abbrev pub has_failed : Connectivity → Bool
has_failed idle = false
has_failed connecting = false
has_failed ready = false
has_failed transient_failure = true
has_failed shutdown = true

-- isUsable
abbrev pub is_usable_connection : Grpc → PooledConnection → Bool
is_usable_connection grpc pooled =
    not (is_open pooled.circuit_state)
    && not (has_failed (grpc.get_state pooled.conn))
    && pooled.is_healthy

-- recordUse
unfoldable pub record_use : ℕ → PooledConnection → PooledConnection
record_use now pooled = elim pooled.circuit_state [
  | circuit_closed ↦ record pooled { last_used = now; use_count = pooled.use_count + 1 }
  | circuit_open ↦ record pooled { last_used = now; use_count = pooled.use_count + 1 }
  | circuit_half_open ↦ record pooled {
    last_used = now;
    use_count = pooled.use_count + 1;
    circuit_state = circuit_closed;
    failures = 0;
  }
]

abbrev pub new_connection : ℕ → ℕ → PooledConnection
new_connection conn now = record {
  conn = conn;
  created = now;
  last_used = now;
  use_count = 0;
  is_healthy = true;
  failures = 0;
  last_failure = 0;
  circuit_state = circuit_closed;
}

-- The loop of createConnection: the first endpoint that answers.
unfoldable pub dial_first : Grpc → Text → List Text → Option ℕ
dial_first grpc domain [] = none
dial_first grpc domain (endpoint ∷ endpoints) =
    let others = dial_first grpc domain endpoints in
    elim (grpc.dial domain endpoint) [ none ↦ others | some conn ↦ some conn ]

-- createConnection, from the loop on
unfoldable pub dial_new : Grpc → Text → List Text → ConnectionPool → Option ℕ × ConnectionPool
unfolding dial_first
dial_new grpc domain endpoints pool = elim (dial_first grpc domain endpoints) [
  | none ↦ (none, pool)
  | some conn ↦ (
    some conn,
    record pool { connections = insert domain (new_connection conn grpc.now) pool.connections },
  )
]

-- GetConnection; createConnection looks once more for what was found unusable
unfoldable pub get_connection : Grpc → Text → List Text → ConnectionPool → Option ℕ × ConnectionPool
unfolding dial_new record_use
get_connection grpc domain endpoints pool = elim (lookup domain pool.connections) [
  | none ↦ dial_new grpc domain endpoints pool
  | some pooled ↦
      if is_usable_connection grpc pooled
      then (
        some pooled.conn,
        record pool { connections = insert domain (record_use grpc.now pooled) pool.connections },
      )
      else dial_new grpc domain endpoints pool
]

-- ReleaseConnection, with the connections that it closes
unfoldable pub release_connection : ℕ → Text → ℕ → ConnectionPool → List ℕ × ConnectionPool
unfolding record_use
release_connection now domain conn pool = elim (lookup domain pool.connections) [
  | none ↦ (conn ∷ [], pool)
  | some pooled ↦
      if pooled.conn == conn
      then (
        [],
        record pool { connections = insert domain (record_use now pooled) pool.connections },
      )
      else (conn ∷ [], pool)
]

-- One failure more, and the circuit opens with the third.
unfoldable pub count_failure : ℕ → PooledConnection → PooledConnection
count_failure now pooled = record pooled {
  failures = pooled.failures + 1;
  last_failure = now;
  circuit_state = if leb 3 (pooled.failures + 1) then circuit_open else pooled.circuit_state;
}

-- MarkUnhealthy
unfoldable pub mark_unhealthy : ℕ → Text → ConnectionPool → ConnectionPool
unfolding count_failure
mark_unhealthy now domain pool = elim (lookup domain pool.connections) [
  | none ↦ pool
  | some pooled ↦ record pool {
    connections = insert domain (count_failure now pooled) pool.connections;
  }
]

-- Thirty seconds
abbrev pub cooldown : ℕ
cooldown = 30 * 1000000000

-- One connection in the loop of performMaintenance.
unfoldable pub maintain : Grpc → PooledConnection → PooledConnection
maintain grpc pooled =
    let checked =
      (if has_failed (grpc.get_state pooled.conn)
        then record pooled { is_healthy = false }
        else pooled) in
    if is_open pooled.circuit_state && ltb cooldown (grpc.now - pooled.last_failure)
    then record checked { circuit_state = circuit_half_open; failures = 0 }
    else checked

-- performMaintenance, with the connections that it closes: those idle for too long go.
unfoldable pub maintain_all : Grpc → ℕ → Dict PooledConnection → List ℕ × Dict PooledConnection
unfolding maintain
maintain_all grpc timeout [] = ([], [])
maintain_all grpc timeout ((domain, pooled) ∷ connections) =
    let (closed, rest) = maintain_all grpc timeout connections in
    if ltb timeout (grpc.now - pooled.last_used)
    then (pooled.conn ∷ closed, rest)
    else (closed, (domain, maintain grpc pooled) ∷ rest)

abbrev pub perform_maintenance : Grpc → ConnectionPool → List ℕ × ConnectionPool
perform_maintenance grpc pool =
    let (closed, rest) = maintain_all grpc pool.idle_timeout pool.connections in
    (closed, record pool { connections = rest })

-- Close, with the connections that it closes
unfoldable pub close : ConnectionPool → List ℕ × ConnectionPool
close pool = (map (λ entry. entry.1.conn) pool.connections, record pool { connections = [] })
