-- ===== src/Tests/Clients.antt =====
-- Calls with retries over the connection pool.
use collective.Prelude.{
  ℕ, ◌+◌, ◌==◌, ◌↔◌, ◌*◌, ◌≤◌, ◌≡◌, refl, false, none, some, List, [], ◌∷◌, arith, if◌then◌else◌,
  length, All, ok, err,
}
use collective.Text.{Text, bytes, same}
use collective.Dict.{lookup, insert}
use collective.Pool.{
  ConnectionPool, Grpc, get_connection, release_connection, mark_unhealthy, count_failure,
  record_use, new_connection, dial_new, dial_first, ready, transient_failure,
}
use collective.Client.{
  Script, Network, new_resilient_client, configure_retry, call_with_retry, try_endpoints,
  retry_operation, retry_loop, after_endpoint, unavailable, all_failed,
}
use collective.Client.Calls.{length-call_with_retry, call_with_retry_never_calls, Yields}
use collective.Client.Failover.{call_with_retry_stays}
use collective.Client.Answered.{IsAnswered, call_with_retry-IsAnswered}

abbrev port : Text → ℕ
port [] = 0
port (c ∷ s) = c

-- Every endpoint answers, with a connection of its first byte.
abbrev answers : ℕ → Grpc
answers now = record {
  dial = λ domain endpoint. some (port endpoint);
  get_state = λ conn. ready;
  now = now;
}

abbrev network : Network
network = record { asked = λ i. answers (5 + 10 * i); over = λ i. 10 + 10 * i }

-- The connections fail after the first endpoint's calls.
abbrev broken : Network
broken = record {
  asked =
      λ i. record (answers 5) { get_state = λ conn. if i == 0 then ready else transient_failure };
  over = λ i. 10;
}

abbrev no_connections : ConnectionPool
no_connections = record { connections = []; idle_timeout = 100 }

abbrev one_connection : ConnectionPool
one_connection = record {
  connections = (bytes "b.org", new_connection 7 1) ∷ [];
  idle_timeout = 100;
}

-- Calls fail until the n-th.
abbrev fails_until : ℕ → Script
fails_until k = record {
  call = λ n conn. if same (n ∷ []) (k ∷ []) then none else some unavailable;
  ended_before = λ n. false;
  ended_after = λ n. false;
}

abbrev endpoints : List Text
endpoints = bytes "A" ∷ bytes "B" ∷ []

call_with_retry_runs :
    ((call_with_retry new_resilient_client network
        (fails_until 4)
        (bytes "b.org")
        no_connections
        endpoints).1
      ≡ 65 ∷ 65 ∷ 65 ∷ 65 ∷ 65 ∷ [])
    × ((call_with_retry new_resilient_client network
          (fails_until 9)
          (bytes "b.org")
          no_connections
          endpoints).0
        ≡ err all_failed)
    × ((call_with_retry new_resilient_client network
          (fails_until 9)
          (bytes "b.org")
          one_connection
          endpoints).1
        ≡ 7 ∷ 7 ∷ 7 ∷ 7 ∷ 7 ∷ 7 ∷ [])
    × ((call_with_retry new_resilient_client broken
          (fails_until 9)
          (bytes "b.org")
          one_connection
          endpoints).1
        ≡ 7 ∷ 7 ∷ 7 ∷ 66 ∷ 66 ∷ 66 ∷ [])
unfolding call_with_retry try_endpoints retry_operation retry_loop after_endpoint get_connection
    release_connection mark_unhealthy record_use dial_new dial_first lookup insert same
call_with_retry_runs = (refl, refl, refl, refl)

-- The third failure opens the circuit, and the next connection is dialed anew.
get_connection_runs :
    let marked =
      mark_unhealthy 6
        (bytes "b.org")
        (mark_unhealthy 6 (bytes "b.org") (mark_unhealthy 6 (bytes "b.org") one_connection)) in
    ((get_connection (answers 5) (bytes "b.org") (bytes "A" ∷ []) one_connection).0 ≡ some 7)
    × ((get_connection (answers 5) (bytes "b.org") (bytes "A" ∷ []) marked).0 ≡ some 65)
unfolding mark_unhealthy count_failure get_connection dial_new dial_first record_use lookup insert
    same
get_connection_runs = (refl, refl)

length-call_with_retry_example :
    length
      (call_with_retry new_resilient_client network
        (fails_until 4)
        (bytes "b.org")
        no_connections
        endpoints).1
    ≤ 3 * 2
length-call_with_retry_example =
    length-call_with_retry new_resilient_client network (fails_until 4) (bytes "b.org")
      no_connections endpoints

call_with_retry_never_calls_example :
    let rc = configure_retry 0 new_resilient_client in
    ((call_with_retry rc network (fails_until 4) (bytes "b.org") one_connection endpoints).1 ≡ [])
    × (((call_with_retry rc network (fails_until 4) (bytes "b.org") one_connection endpoints).0
          ≡ ok tt)
        ↔ Yields network (bytes "b.org") 0 one_connection endpoints)
call_with_retry_never_calls_example =
    call_with_retry_never_calls (configure_retry 0 new_resilient_client) network (fails_until 4)
      (bytes "b.org") one_connection endpoints refl

call_with_retry_stays_example :
    All
      (λ c. c ≡ 7)
      (call_with_retry new_resilient_client network
        (fails_until 9)
        (bytes "b.org")
        one_connection
        endpoints).1
unfolding lookup same
call_with_retry_stays_example =
    call_with_retry_stays new_resilient_client network (fails_until 9) (bytes "b.org")
      one_connection endpoints (new_connection 7 1) refl refl refl (λ k. refl) (omega arith)

call_with_retry-IsAnswered_example : IsAnswered (fails_until 4) 0 (65 ∷ 65 ∷ 65 ∷ 65 ∷ 65 ∷ [])
unfolding call_with_retry try_endpoints retry_operation retry_loop after_endpoint get_connection
    release_connection mark_unhealthy record_use dial_new dial_first lookup insert same
call_with_retry-IsAnswered_example =
    call_with_retry-IsAnswered new_resilient_client network (fails_until 4) (bytes "b.org")
      no_connections endpoints (omega arith) refl
