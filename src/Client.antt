-- ===== src/Client.antt =====
-- pkg/federation/resilient_client.go: calls with retries and failover. The called function and the
-- context answer by the number of calls made so far, and the network, which changes while the client
-- waits, by the number of endpoints tried. No other goroutine uses the pool meanwhile.
pub mod Calls
pub mod Failover
pub mod Answered
use collective.Prelude.{
  ℕ, zero, suc, ◌+◌, ◌*◌, ◌≡◌, Bool, true, false, Option, none, some, List, [], ◌∷◌, ◌++◌, arith,
  if◌then◌else◌, leb, length, Result, ok, err,
}
use collective.Text.{Text, bytes, same}
use collective.Dict.{Dict, lookup, insert, erase}
use collective.Gossip.{PeerState, PeerEndpoint}
use collective.Pool.{ConnectionPool, Grpc, get_connection, release_connection, mark_unhealthy}

-- The errors of a call: a status code of gRPC, or an error that is none, as a context's is.
pub data CallError : Type 0 where
  unavailable resource_exhausted aborted deadline_exceeded internal unknown : CallError
  other_code : ℕ → CallError
  no_status : CallError

-- isRetryableError
abbrev pub is_retryable_error : CallError → Bool
is_retryable_error unavailable = true
is_retryable_error resource_exhausted = true
is_retryable_error aborted = true
is_retryable_error deadline_exceeded = true
is_retryable_error internal = true
is_retryable_error unknown = true
is_retryable_error (other_code code) = false
is_retryable_error no_status = true

-- ResilientClient
pub record ResilientClient : Type 0 where
  pub max_retries : ℕ
  pub failover_enabled : Bool
  pub preferred_nodes : Dict (List Text)

-- NewResilientClient
abbrev pub new_resilient_client : ResilientClient
new_resilient_client = record { max_retries = 3; failover_enabled = true; preferred_nodes = [] }

-- What the n-th call gives on a connection, and whether the context has ended before the n-th call
-- and while the client waits after it.
pub record Script : Type 0 where
  pub call : ℕ → ℕ → Option CallError
  pub ended_before : ℕ → Bool
  pub ended_after : ℕ → Bool

-- What gRPC does at the moment when the i-th endpoint's connection is asked for, and the time when the
-- calls on it are over.
pub record Network : Type 0 where
  pub asked : ℕ → Grpc
  pub over : ℕ → ℕ

-- An error or none, and the connections that were called, in order.
abbrev pub Trace : Type 0
Trace = Option CallError × List ℕ

-- The loop of retryOperation, with the rounds that are left and the last error.
unfoldable pub retry_loop : Script → ℕ → ℕ → ℕ → Option CallError → Trace
retry_loop script zero n conn last = (last, [])
retry_loop script (suc rounds) n conn last =
    let (answer, calls) = retry_loop script rounds (n + 1) conn (script.call n conn) in
    if script.ended_before n then (some no_status, []) else (elim (script.call n conn) [
      | none ↦ (none, conn ∷ [])
      | some e ↦
          if is_retryable_error e
          then (elim rounds [
            | zero ↦ (answer, conn ∷ calls)
            | suc others ↦
                if script.ended_after n then (some no_status, conn ∷ []) else (answer, conn ∷ calls)
          ])
          else (some e, conn ∷ [])
    ])

-- retryOperation
unfoldable pub retry_operation : ResilientClient → Script → ℕ → ℕ → Trace
unfolding retry_loop
retry_operation rc script n conn = retry_loop script rc.max_retries n conn none

pub data ClientError : Type 0 where
  no_endpoints : ClientError
  all_failed : ClientError
  refused : CallError → ClientError

-- What a call with retries gives: its answer, the connections called, and the pool.
abbrev pub Called : Type 0
Called = Result ClientError (Unit {0}) × List ℕ × ConnectionPool

abbrev pub after_calls : List ℕ → Called → Called
after_calls calls (answer, later, pool) = (answer, calls ++ later, pool)

-- What retryOperation's answer leads to; `next` goes on with the other endpoints, after so many calls
-- more. What ReleaseConnection closes is left out.
unfoldable pub after_endpoint :
    ResilientClient
    → ℕ
    → Text
    → ℕ
    → ℕ
    → ConnectionPool
    → (ℕ → ConnectionPool → Called)
    → Trace
    → Called
unfolding release_connection mark_unhealthy
after_endpoint rc now domain conn failed pool next (none, calls) =
    (ok tt, calls, (release_connection now domain conn pool).1)
after_endpoint rc now domain conn failed pool next (some e, calls) =
    if is_retryable_error e
    then after_calls calls (
        next (length calls)
          (if leb rc.max_retries (failed + 1) then mark_unhealthy now domain pool else pool))
    else (err (refused e), calls, (release_connection now domain conn pool).1)

-- The loop over the endpoints from the i-th on, with the calls made and the count of endpoints that
-- failed.
unfoldable pub try_endpoints :
    ResilientClient → Network → Script → Text → ℕ → ℕ → ℕ → ConnectionPool → List Text → Called
unfolding get_connection retry_operation after_endpoint
try_endpoints rc network script domain i n failed pool [] = (err all_failed, [], pool)
try_endpoints rc network script domain i n failed pool (endpoint ∷ endpoints) =
    let (found, pool') = get_connection (network.asked i) domain (endpoint ∷ []) pool in
    elim found [
      | none ↦ try_endpoints rc network script domain (i + 1) n failed pool' endpoints
      | some conn ↦
          after_endpoint rc (network.over i) domain conn failed pool'
            (λ calls pool''.
              try_endpoints rc network script domain (i + 1) (n + calls) (failed + 1) pool''
                endpoints)
            (retry_operation rc script n conn)
    ]

-- CallWithRetry, on the endpoints of the domain
unfoldable pub call_with_retry :
    ResilientClient → Network → Script → Text → ConnectionPool → List Text → Called
unfolding try_endpoints
call_with_retry rc network script domain pool [] = (err no_endpoints, [], pool)
call_with_retry rc network script domain pool (endpoint ∷ endpoints) =
    try_endpoints rc network script domain 0 0 0 pool (endpoint ∷ endpoints)

-- The endpoints of a peer, and of the first healthy peer of the domain.
unfoldable pub endpoints_of : List PeerEndpoint → List Text
endpoints_of [] = []
endpoints_of (endpoint ∷ endpoints) = endpoint.direct_ips ++ endpoints_of endpoints

unfoldable pub find_peer : Text → List PeerState → Option PeerState
find_peer domain [] = none
find_peer domain (peer ∷ peers) =
    let others = find_peer domain peers in
    if same peer.address.domain domain then some peer else others

-- The part of getEndpointsForDomain that asks the gossip service, where there is one.
unfoldable pub discover :
    Option (List PeerState) → Text → ResilientClient → List Text × ResilientClient
unfolding find_peer endpoints_of
discover none domain rc = ((domain ++ bytes ":8001") ∷ [], rc)
discover (some peers) domain rc = elim (find_peer domain peers) [
  | none ↦ ((domain ++ bytes ":8001") ∷ [], rc)
  | some peer ↦ (
    endpoints_of peer.endpoints,
    record rc { preferred_nodes = insert domain (endpoints_of peer.endpoints) rc.preferred_nodes },
  )
]

-- getEndpointsForDomain
unfoldable pub get_endpoints_for_domain :
    Option (List PeerState) → Text → ResilientClient → List Text × ResilientClient
unfolding discover
get_endpoints_for_domain peers domain rc = elim (lookup domain rc.preferred_nodes) [
  | none ↦ discover peers domain rc
  | some [] ↦ discover peers domain rc
  | some (endpoint ∷ endpoints) ↦ (endpoint ∷ endpoints, rc)
]

-- SetPreferredEndpoints, ClearPreferredEndpoints, ConfigureRetry and EnableFailover
unfoldable pub set_preferred_endpoints : Text → List Text → ResilientClient → ResilientClient
set_preferred_endpoints domain endpoints rc = record rc {
  preferred_nodes = insert domain endpoints rc.preferred_nodes;
}

unfoldable pub clear_preferred_endpoints : Text → ResilientClient → ResilientClient
clear_preferred_endpoints domain rc = record rc {
  preferred_nodes = erase domain rc.preferred_nodes;
}

abbrev pub configure_retry : ℕ → ResilientClient → ResilientClient
configure_retry max_retries rc = record rc { max_retries = max_retries }

abbrev pub enable_failover : Bool → ResilientClient → ResilientClient
enable_failover enabled rc = record rc { failover_enabled = enabled }
