-- ===== src/Client/Calls.antt =====
-- pkg/federation/resilient_client.go: how many calls are made, and on what their answer rests.
use collective.Prelude.{
  sym, ap, ◌∙◌, ◌↔◌, get_elem?, ℕ, zero, suc, ◌+◌, ◌*◌, ◌≤◌, ◌≡◌, refl, Bool-cases, Option-cases,
  inl, inr, Option, none, some, List, [], ◌∷◌, arith, if◌then◌else◌, leb, length, ok, length-append,
}
use collective.Text.{Text}
use collective.Pool.{ConnectionPool, Grpc, dial_new, get_connection, mark_unhealthy}
use collective.Client.{
  CallError, is_retryable_error, ResilientClient, Script, Network, Trace, retry_loop,
  retry_operation, Called, after_endpoint, try_endpoints, call_with_retry,
}

length-retry_loop :
    (script : Script) (rounds n conn : ℕ) (last : Option CallError)
    → length (retry_loop script rounds n conn last).1 ≤ rounds
unfolding retry_loop
length-retry_loop script zero n conn last = omega arith
length-retry_loop script (suc rounds) n conn last =
    ground (arith, length-retry_loop script rounds (n + 1) conn (script.call n conn))

length-after_endpoint :
    (rc : ResilientClient) (now : ℕ) (domain : Text) (conn failed bound : ℕ) (pool : ConnectionPool)
    (next : ℕ → ConnectionPool → Called) (trace : Trace)
    → length trace.1 ≤ rc.max_retries
    → ((k : ℕ) (p : ConnectionPool) → length (next k p).1 ≤ bound)
    → length (after_endpoint rc now domain conn failed pool next trace).1 ≤ rc.max_retries + bound
unfolding after_endpoint
length-after_endpoint rc now domain conn failed bound pool next (none, calls) h g = omega arith
length-after_endpoint rc now domain conn failed bound pool next (some e, calls) h g =
    let marked =
      (if leb rc.max_retries (failed + 1) then mark_unhealthy now domain pool else pool) in
    elim (Bool-cases (is_retryable_error e)) [
      | inl r ↦
          rw (after_endpoint, r)
            (omega (
              arith,
              h,
              g (length calls) marked,
              length-append calls (next (length calls) marked).1,
            ))
      | inr r ↦ rw (after_endpoint, r) (omega (arith, h))
    ]

length-try_endpoints :
    (rc : ResilientClient) (network : Network) (script : Script) (domain : Text) (i n failed : ℕ)
    (pool : ConnectionPool) (endpoints : List Text)
    → length (try_endpoints rc network script domain i n failed pool endpoints).1
      ≤ rc.max_retries * length endpoints
unfolding try_endpoints retry_operation
length-try_endpoints rc network script domain i n failed pool [] = omega arith
length-try_endpoints rc network script domain i n failed pool (endpoint ∷ endpoints) =
    elim (Option-cases (get_connection (network.asked i) domain (endpoint ∷ []) pool).0) [
      | inl e ↦
          rw (e, try_endpoints)
            (grind (
              arith,
              length-try_endpoints rc network script domain (i + 1) n failed
                  (get_connection (network.asked i) domain (endpoint ∷ []) pool).1 endpoints,
            ))
      | inr (conn, e) ↦
          let step =
            length-after_endpoint rc (network.over i) domain conn failed
              (rc.max_retries * length endpoints)
              (get_connection (network.asked i) domain (endpoint ∷ []) pool).1
              (λ calls p.
                try_endpoints rc network script domain (i + 1) (n + calls) (failed + 1) p endpoints)
              (retry_operation rc script n conn)
              (length-retry_loop script rc.max_retries n conn none)
              (λ k p.
                length-try_endpoints rc network script domain (i + 1) (n + k) (failed + 1) p
                  endpoints) in
          rw (e, try_endpoints) (grind (arith, step))
    ]

-- A call with retries calls the function at most as often as the retries times the endpoints.
pub length-call_with_retry :
    (rc : ResilientClient) (network : Network) (script : Script) (domain : Text)
    (pool : ConnectionPool) (endpoints : List Text)
    → length (call_with_retry rc network script domain pool endpoints).1
      ≤ rc.max_retries * length endpoints
unfolding call_with_retry
length-call_with_retry rc network script domain pool [] = omega arith
length-call_with_retry rc network script domain pool (endpoint ∷ endpoints) =
    length-try_endpoints rc network script domain 0 0 0 pool (endpoint ∷ endpoints)

dial_new_refused :
    (grpc : Grpc) (domain : Text) (endpoints : List Text) (pool : ConnectionPool)
    → (dial_new grpc domain endpoints pool).0 ≡ none
    → (dial_new grpc domain endpoints pool).1 ≡ pool
unfolding dial_new
dial_new_refused grpc domain endpoints pool h = ground (arith, h)

-- A connection that is not got leaves the pool as it is.
get_connection_refused :
    (grpc : Grpc) (domain : Text) (endpoints : List Text) (pool : ConnectionPool)
    → (get_connection grpc domain endpoints pool).0 ≡ none
    → (get_connection grpc domain endpoints pool).1 ≡ pool
unfolding get_connection
get_connection_refused grpc domain endpoints pool h =
    ground (arith, h, dial_new_refused grpc domain endpoints pool)

-- Some of the endpoints yields a connection when it is asked for, the first of them being the i-th.
abbrev pub Yields : Network → Text → ℕ → ConnectionPool → List Text → Type 0
Yields network domain i pool endpoints =
    (k : ℕ) × (endpoint : Text) × (conn : ℕ) × (get_elem? endpoints k ≡ some endpoint)
    × ((get_connection (network.asked (i + k)) domain (endpoint ∷ []) pool).0 ≡ some conn)

-- Two names of the same moment.
at_asked :
    (network : Network) (domain : Text) (pool : ConnectionPool) (endpoint : Text) (i j : ℕ)
    → j ≡ i
    → (get_connection (network.asked j) domain (endpoint ∷ []) pool).0
      ≡ (get_connection (network.asked i) domain (endpoint ∷ []) pool).0
at_asked network domain pool endpoint i j e =
    ap (λ k. (get_connection (network.asked k) domain (endpoint ∷ []) pool).0) e

Yields-later :
    (network : Network) (domain : Text) (i : ℕ) (pool : ConnectionPool) (endpoint : Text)
    (endpoints : List Text)
    → Yields network domain (i + 1) pool endpoints
    → Yields network domain i pool (endpoint ∷ endpoints)
Yields-later network domain i pool endpoint endpoints (k, e, conn, h, g) =
    (suc k, e, conn, h, at_asked network domain pool e (i + 1 + k) (i + suc k) (omega arith) ∙ g)

not_Yields-nil :
    (network : Network) (domain : Text) (i : ℕ) (pool : ConnectionPool)
    → ¬ Yields network domain i pool []
not_Yields-nil network domain i pool (k, e, conn, h, g) = absurd (cc)

Yields-split :
    (network : Network) (domain : Text) (i : ℕ) (pool : ConnectionPool) (endpoint : Text)
    (endpoints : List Text)
    → (get_connection (network.asked i) domain (endpoint ∷ []) pool).0 ≡ none
    → Yields network domain i pool (endpoint ∷ endpoints)
    → Yields network domain (i + 1) pool endpoints
Yields-split network domain i pool endpoint endpoints e (zero, x, conn, h, g) =
    let same_endpoint : endpoint ≡ x = ground (arith, h) in
    let refused =
      ap (λ y. (get_connection (network.asked i) domain (y ∷ []) pool).0) (sym same_endpoint) ∙ e in
    absurd (ground (arith, refused, at_asked network domain pool x i (i + 0) (omega arith), g))
Yields-split network domain i pool endpoint endpoints e (suc k, x, conn, h, g) =
    (k, x, conn, h, at_asked network domain pool x (i + suc k) (i + 1 + k) (omega arith) ∙ g)

try_endpoints_never_calls :
    (rc : ResilientClient) (network : Network) (script : Script) (domain : Text) (i n failed : ℕ)
    (pool : ConnectionPool) (endpoints : List Text)
    → rc.max_retries ≡ 0
    → ((try_endpoints rc network script domain i n failed pool endpoints).1 ≡ [])
      × (((try_endpoints rc network script domain i n failed pool endpoints).0 ≡ ok tt)
          ↔ Yields network domain i pool endpoints)
unfolding try_endpoints retry_operation retry_loop after_endpoint
try_endpoints_never_calls rc network script domain i n failed pool [] z =
    (refl, ((λ h. absurd (cc)), (λ h. absurd (not_Yields-nil network domain i pool h))))
try_endpoints_never_calls rc network script domain i n failed pool (endpoint ∷ endpoints) z =
    elim (Option-cases (get_connection (network.asked i) domain (endpoint ∷ []) pool).0) [
      | inl e ↦
          let (calls, answer) =
            try_endpoints_never_calls rc network script domain (i + 1) n failed pool endpoints z in
          rw
            (
              try_endpoints,
              e,
              get_connection_refused (network.asked i) domain (endpoint ∷ []) pool e,
            )
            (
              calls,
              (
                (λ h. Yields-later network domain i pool endpoint endpoints (answer.0 h)),
                (λ h. answer.1 (Yields-split network domain i pool endpoint endpoints e h)),
              ),
            )
      | inr (conn, e) ↦
          rw (try_endpoints, e, retry_operation, z, retry_loop, after_endpoint)
            (
              refl,
              (
                (λ h. (
                  0,
                  endpoint,
                  conn,
                  refl,
                  at_asked network domain pool endpoint i (i + 0) (omega arith) ∙ e,
                )),
                (λ h. refl),
              ),
            )
    ]

-- With no retries configured, the function is not called at all, and yet a call with retries succeeds
-- exactly if some endpoint of the list yields a connection when it is asked for.
pub call_with_retry_never_calls :
    (rc : ResilientClient) (network : Network) (script : Script) (domain : Text)
    (pool : ConnectionPool) (endpoints : List Text)
    → rc.max_retries ≡ 0
    → ((call_with_retry rc network script domain pool endpoints).1 ≡ [])
      × (((call_with_retry rc network script domain pool endpoints).0 ≡ ok tt)
          ↔ Yields network domain 0 pool endpoints)
unfolding call_with_retry
call_with_retry_never_calls rc network script domain pool [] z =
    (refl, ((λ h. absurd (cc)), (λ h. absurd (not_Yields-nil network domain 0 pool h))))
call_with_retry_never_calls rc network script domain pool (endpoint ∷ endpoints) z =
    try_endpoints_never_calls rc network script domain 0 0 0 pool (endpoint ∷ endpoints) z
