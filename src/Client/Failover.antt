-- ===== src/Client/Failover.antt =====
-- pkg/federation/resilient_client.go on connection_pool.go: which connection a failover calls.
use collective.Prelude.{
  ℕ, zero, suc, ◌+◌, ◌≤◌, ◌≡◌, refl, ap, ◌∙◌, true, false, Bool-cases, inl, inr, ◌⊎◌, Option, none,
  some, List, [], ◌∷◌, ◌++◌, arith, if◌then◌else◌, leb, length, All,
}
use collective.Text.{Text}
use collective.Dict.{lookup, lookup-insert_self}
use collective.Pool.{
  is_open, has_failed, ConnectionPool, PooledConnection, CircuitState, circuit_closed, circuit_open,
  circuit_half_open, Grpc, get_connection, mark_unhealthy, is_usable_connection, record_use,
}
use collective.Client.{
  CallError, is_retryable_error, ResilientClient, Script, Network, retry_loop, retry_operation,
  Called, after_endpoint, try_endpoints, call_with_retry, Trace,
}

-- The pool has a connection of this number for the domain, healthy and with its circuit not open.
abbrev Serves : Text → ℕ → ConnectionPool → Type 0
Serves domain conn pool =
    (pooled : PooledConnection) × (lookup domain pool.connections ≡ some pooled)
    × (pooled.conn ≡ conn)
    × (is_open pooled.circuit_state ≡ false)
    × (pooled.is_healthy ≡ true)

All-append :
    (conn : ℕ) (xs ys : List ℕ)
    → All (λ c. c ≡ conn) xs
    → All (λ c. c ≡ conn) ys
    → All (λ c. c ≡ conn) (xs ++ ys)
All-append conn [] ys h g = g
All-append conn (x ∷ xs) ys (h, hs) g = (h, All-append conn xs ys hs g)

retry_loop-All :
    (script : Script) (rounds n conn : ℕ) (last : Option CallError)
    → All (λ c. c ≡ conn) (retry_loop script rounds n conn last).1
unfolding retry_loop
retry_loop-All script zero n conn last = tt
retry_loop-All script (suc rounds) n conn last =
    ground (arith, retry_loop-All script rounds (n + 1) conn (script.call n conn))

record_use_keeps :
    (now : ℕ) (pooled : PooledConnection)
    → is_open pooled.circuit_state ≡ false
    → ((record_use now pooled).conn ≡ pooled.conn)
      × (is_open (record_use now pooled).circuit_state ≡ false)
      × ((record_use now pooled).is_healthy ≡ pooled.is_healthy)
unfolding record_use
record_use_keeps now pooled h = at_state pooled.circuit_state refl
  where
    at_state :
        (state : CircuitState)
        → pooled.circuit_state ≡ state
        → ((record_use now pooled).conn ≡ pooled.conn)
          × (is_open (record_use now pooled).circuit_state ≡ false)
          × ((record_use now pooled).is_healthy ≡ pooled.is_healthy)
    at_state circuit_closed e = rw (record_use, e) (refl, ground (arith, h, e), refl)
    at_state circuit_open e = absurd (ground (arith, h, e))
    at_state circuit_half_open e = rw (record_use, e) (refl, refl, refl)

get_connection-Serves :
    (grpc : Grpc) (domain : Text) (conn : ℕ) (endpoints : List Text) (pool : ConnectionPool)
    → has_failed (grpc.get_state conn) ≡ false
    → Serves domain conn pool
    → ((get_connection grpc domain endpoints pool).0 ≡ some conn)
      × Serves domain conn (get_connection grpc domain endpoints pool).1
unfolding get_connection
get_connection-Serves grpc domain conn endpoints pool up (pooled, e, same_conn, closed, healthy) =
    let (c, o, u) = record_use_keeps grpc.now pooled closed in
    let same_state = ap (λ k. has_failed (grpc.get_state k)) same_conn ∙ up in
    let usable : is_usable_connection grpc pooled ≡ true =
      ground (arith, closed, same_state, healthy) in
    rw (get_connection, e, usable)
      (
        ap some same_conn,
        (
          record_use grpc.now pooled,
          lookup-insert_self domain (record_use grpc.now pooled) pool.connections,
          c ∙ same_conn,
          o,
          u ∙ healthy,
        ),
      )

after_endpoint-All :
    (rc : ResilientClient) (now : ℕ) (domain : Text) (conn failed : ℕ) (pool : ConnectionPool)
    (next : ℕ → ConnectionPool → Called) (trace : Trace)
    → All (λ c. c ≡ conn) trace.1
    → ((k : ℕ)
        → All
            (λ c. c ≡ conn)
            (next k
              (if leb rc.max_retries (failed + 1) then mark_unhealthy now domain pool else pool)).1)
    → All (λ c. c ≡ conn) (after_endpoint rc now domain conn failed pool next trace).1
unfolding after_endpoint
after_endpoint-All rc now domain conn failed pool next (none, calls) h g = h
after_endpoint-All rc now domain conn failed pool next (some e, calls) h g =
    elim (Bool-cases (is_retryable_error e)) [
      | inl r ↦
          rw (after_endpoint, r)
            (All-append conn calls
              (next (length calls) (
                if leb rc.max_retries (failed + 1) then mark_unhealthy now domain pool else pool)).1
              h (g (length calls)))
      | inr r ↦ rw (after_endpoint, r) h
    ]

try_endpoints-All :
    (rc : ResilientClient) (network : Network) (script : Script) (domain : Text)
    (conn i n failed : ℕ) (pool : ConnectionPool) (endpoints : List Text)
    → ((k : ℕ) → has_failed ((network.asked k).get_state conn) ≡ false)
    → failed + length endpoints ≤ rc.max_retries
    → (endpoints ≡ []) ⊎ Serves domain conn pool
    → All (λ c. c ≡ conn) (try_endpoints rc network script domain i n failed pool endpoints).1
unfolding try_endpoints retry_operation
try_endpoints-All rc network script domain conn i n failed pool [] up few serves = tt
try_endpoints-All rc network script domain conn i n failed pool (endpoint ∷ endpoints) up few
      (inl e) =
    absurd (cc)
try_endpoints-All rc network script domain conn i n failed pool (endpoint ∷ endpoints) up few
      (inr serves) =
    let (found, serves') =
      get_connection-Serves (network.asked i) domain conn (endpoint ∷ []) pool (up i) serves in
    let pool' = (get_connection (network.asked i) domain (endpoint ∷ []) pool).1 in
    let marked =
      (if leb rc.max_retries (failed + 1)
        then mark_unhealthy (network.over i) domain pool'
        else pool') in
    rw (try_endpoints, found)
      (after_endpoint-All rc (network.over i) domain conn failed pool'
        (λ calls p.
          try_endpoints rc network script domain (i + 1) (n + calls) (failed + 1) p endpoints)
        (retry_operation rc script n conn) (retry_loop-All script rc.max_retries n conn none)
        (λ k.
          try_endpoints-All rc network script domain conn (i + 1) (n + k) (failed + 1) marked
            endpoints up (omega arith) (still endpoints (omega arith) serves')))
  where
    still :
        (others : List Text)
        → failed + (length others + 1) ≤ rc.max_retries
        → Serves domain conn (get_connection (network.asked i) domain (endpoint ∷ []) pool).1
        → (others ≡ [])
          ⊎ Serves domain conn (
              if leb rc.max_retries (failed + 1)
              then mark_unhealthy
                  (network.over i)
                  domain
                  (get_connection (network.asked i) domain (endpoint ∷ []) pool).1
              else (get_connection (network.asked i) domain (endpoint ∷ []) pool).1)
    still [] small s = inl refl
    still (x ∷ others) small s =
        let below : leb rc.max_retries (failed + 1) ≡ false = ground (arith, small) in
        inr (rw below s)

-- Where the pool has a healthy connection for the domain whose circuit is not open, this connection is
-- neither in TransientFailure nor Shutdown whenever the call asks the pool for one, and there are no
-- more endpoints than retries, a call with retries calls that one connection only, whatever the
-- endpoints and the answers are: the failover never reaches another endpoint.
pub call_with_retry_stays :
    (rc : ResilientClient) (network : Network) (script : Script) (domain : Text)
    (pool : ConnectionPool) (endpoints : List Text) (pooled : PooledConnection)
    → lookup domain pool.connections ≡ some pooled
    → is_open pooled.circuit_state ≡ false
    → pooled.is_healthy ≡ true
    → ((k : ℕ) → has_failed ((network.asked k).get_state pooled.conn) ≡ false)
    → length endpoints ≤ rc.max_retries
    → All (λ c. c ≡ pooled.conn) (call_with_retry rc network script domain pool endpoints).1
unfolding call_with_retry
call_with_retry_stays rc network script domain pool [] pooled e closed healthy up few = tt
call_with_retry_stays rc network script domain pool (endpoint ∷ endpoints) pooled e closed healthy
      up few =
    try_endpoints-All rc network script domain pooled.conn 0 0 0 pool (endpoint ∷ endpoints) up
      (omega arith) (inr (pooled, e, refl, closed, healthy))
