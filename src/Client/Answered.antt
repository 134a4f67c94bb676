-- ===== src/Client/Answered.antt =====
-- pkg/federation/resilient_client.go: on what a success rests.
use collective.Prelude.{
  ℕ, zero, suc, ◌+◌, ◌<◌, ◌≡◌, refl, ap, ◌∙◌, true, false, Bool-cases, Option-cases, inl, inr, ◌⊎◌,
  Option, none, some, List, [], ◌∷◌, ◌++◌, arith, length, get_elem?, ok,
}
use collective.Text.{Text}
use collective.Pool.{ConnectionPool, get_connection}
use collective.Client.{
  CallError, is_retryable_error, ResilientClient, Script, Network, Trace, retry_loop,
  retry_operation, Called, after_endpoint, try_endpoints, call_with_retry,
}

-- Some call of those made, the first of them being the n-th, succeeded.
abbrev pub IsAnswered : Script → ℕ → List ℕ → Type 0
IsAnswered script n calls =
    (k : ℕ) × (conn : ℕ) × (get_elem? calls k ≡ some conn) × (script.call (n + k) conn ≡ none)

get_elem?-append : (xs ys : List ℕ) (k : ℕ) → get_elem? (xs ++ ys) (length xs + k) ≡ get_elem? ys k
get_elem?-append [] ys k = let e : 0 + k ≡ k = omega arith in ap (get_elem? ys) e
get_elem?-append (x ∷ xs) ys k =
    let e : length (x ∷ xs) + k ≡ suc (length xs + k) = omega arith in
    ap (get_elem? (x ∷ (xs ++ ys))) e ∙ get_elem?-append xs ys k

append-IsAnswered :
    (script : Script) (n : ℕ) (xs ys : List ℕ)
    → IsAnswered script (n + length xs) ys
    → IsAnswered script n (xs ++ ys)
append-IsAnswered script n xs ys (k, conn, h, g) = (
  length xs + k,
  conn,
  get_elem?-append xs ys k ∙ h,
  ap (λ i. script.call i conn) (omega arith) ∙ g,
)

retry_loop_step :
    (script : Script) (rounds n conn : ℕ) (last : Option CallError)
    → (retry_loop script (suc rounds) n conn last).0 ≡ none
    → ((script.call n conn ≡ none) × ((retry_loop script (suc rounds) n conn last).1 ≡ conn ∷ []))
      ⊎ ((x : CallError) × (script.call n conn ≡ some x)
          × ((retry_loop script rounds (n + 1) conn (script.call n conn)).0 ≡ none)
          × ((retry_loop script (suc rounds) n conn last).1
              ≡ conn ∷ (retry_loop script rounds (n + 1) conn (script.call n conn)).1))
unfolding retry_loop
retry_loop_step script rounds n conn last h = elim (Bool-cases (script.ended_before n)) [
  | inl b ↦ absurd (ground (arith, rw (retry_loop, b) at h))
  | inr b ↦ elim (Option-cases (script.call n conn)) [
    | inl e ↦ inl (e, ground (arith, b, e))
    | inr (x, e) ↦ inr (left_to_go b x e rounds h)
  ]
]
  where
    left_to_go :
        script.ended_before n ≡ false
        → (x : CallError) → script.call n conn ≡ some x
        → (left : ℕ) → (retry_loop script (suc left) n conn last).0 ≡ none
        → (y : CallError) × (script.call n conn ≡ some y)
          × ((retry_loop script left (n + 1) conn (script.call n conn)).0 ≡ none)
          × ((retry_loop script (suc left) n conn last).1
              ≡ conn ∷ (retry_loop script left (n + 1) conn (script.call n conn)).1)
    left_to_go b x e left g = elim (Bool-cases (is_retryable_error x)) [
      | inr r ↦ absurd (ground (arith, rw (retry_loop, b, e, r) at g))
      | inl r ↦ at_left b x e r left g
    ]
      where
        at_left :
            script.ended_before n ≡ false
            → (x : CallError) → script.call n conn ≡ some x
            → is_retryable_error x ≡ true
            → (left : ℕ) → (retry_loop script (suc left) n conn last).0 ≡ none
            → (y : CallError) × (script.call n conn ≡ some y)
              × ((retry_loop script left (n + 1) conn (script.call n conn)).0 ≡ none)
              × ((retry_loop script (suc left) n conn last).1
                  ≡ conn ∷ (retry_loop script left (n + 1) conn (script.call n conn)).1)
        at_left b x e r zero g = absurd (ground (arith, g, b, e, r))
        at_left b x e r (suc left) g = elim (Bool-cases (script.ended_after n)) [
          | inl a ↦ absurd (ground (arith, rw (retry_loop, b, e, r, a) at g))
          | inr a ↦ (x, e, ground (arith, g, b, e, r, a), ground (arith, b, e, r, a))
        ]

later-IsAnswered :
    (script : Script) (n conn : ℕ) (calls calls' : List ℕ)
    → calls' ≡ conn ∷ calls
    → IsAnswered script (n + 1) calls
    → IsAnswered script n calls'
later-IsAnswered script n conn calls calls' e (k, c, h, g) =
    (suc k, c, ap (λ l. get_elem? l (suc k)) e ∙ h, ap (λ i. script.call i c) (omega arith) ∙ g)

first-IsAnswered :
    (script : Script) (n conn : ℕ) (calls : List ℕ)
    → script.call n conn ≡ none
    → calls ≡ conn ∷ []
    → IsAnswered script n calls
first-IsAnswered script n conn calls e f =
    (0, conn, ap (λ l. get_elem? l 0) f, ap (λ i. script.call i conn) (omega arith) ∙ e)

retry_loop-IsAnswered :
    (script : Script) (rounds n conn : ℕ) (last : Option CallError) (x : CallError)
    → last ≡ some x
    → (retry_loop script rounds n conn last).0 ≡ none
    → IsAnswered script n (retry_loop script rounds n conn last).1
unfolding retry_loop
retry_loop-IsAnswered script zero n conn last x e h = absurd (cc)
retry_loop-IsAnswered script (suc rounds) n conn last x e h =
    elim (retry_loop_step script rounds n conn last h) [
      | inl (a, f) ↦
          first-IsAnswered script n conn (retry_loop script (suc rounds) n conn last).1 a f
      | inr (y, a, g, f) ↦
          later-IsAnswered script n conn
            (retry_loop script rounds (n + 1) conn (script.call n conn)).1
            (retry_loop script (suc rounds) n conn last).1 f
            (retry_loop-IsAnswered script rounds (n + 1) conn (script.call n conn) y a g)
    ]

retry_operation-IsAnswered :
    (rc : ResilientClient) (script : Script) (n conn : ℕ)
    → 0 < rc.max_retries
    → (retry_operation rc script n conn).0 ≡ none
    → IsAnswered script n (retry_operation rc script n conn).1
unfolding retry_operation
retry_operation-IsAnswered rc script n conn positive h = at_rounds rc.max_retries positive h
  where
    at_rounds :
        (rounds : ℕ)
        → 0 < rounds
        → (retry_loop script rounds n conn none).0 ≡ none
        → IsAnswered script n (retry_loop script rounds n conn none).1
    at_rounds zero less g = absurd (omega arith)
    at_rounds (suc rounds) less g = elim (retry_loop_step script rounds n conn none g) [
      | inl (a, f) ↦
          first-IsAnswered script n conn (retry_loop script (suc rounds) n conn none).1 a f
      | inr (y, a, k, f) ↦
          later-IsAnswered script n conn
            (retry_loop script rounds (n + 1) conn (script.call n conn)).1
            (retry_loop script (suc rounds) n conn none).1 f
            (retry_loop-IsAnswered script rounds (n + 1) conn (script.call n conn) y a k)
    ]

after_endpoint-IsAnswered :
    (rc : ResilientClient) (now : ℕ) (script : Script) (domain : Text) (n conn failed : ℕ)
    (pool : ConnectionPool) (next : ℕ → ConnectionPool → Called) (trace : Trace)
    → (trace.0 ≡ none → IsAnswered script n trace.1)
    → ((k : ℕ) (p : ConnectionPool) → (next k p).0 ≡ ok tt → IsAnswered script (n + k) (next k p).1)
    → (after_endpoint rc now domain conn failed pool next trace).0 ≡ ok tt
    → IsAnswered script n (after_endpoint rc now domain conn failed pool next trace).1
unfolding after_endpoint
after_endpoint-IsAnswered rc now script domain n conn failed pool next (none, calls) first later h =
    first refl
after_endpoint-IsAnswered rc now script domain n conn failed pool next (some e, calls) first later
      h =
    elim (Bool-cases (is_retryable_error e)) [
      | inl r ↦
          rw (after_endpoint, r)
            (append-IsAnswered script n calls _
              (later (length calls) _ (rw (after_endpoint, r) at h)))
      | inr r ↦ absurd (ground (arith, rw (after_endpoint, r) at h))
    ]

try_endpoints-IsAnswered :
    (rc : ResilientClient) (network : Network) (script : Script) (domain : Text) (i n failed : ℕ)
    (pool : ConnectionPool) (endpoints : List Text)
    → 0 < rc.max_retries
    → (try_endpoints rc network script domain i n failed pool endpoints).0 ≡ ok tt
    → IsAnswered script n (try_endpoints rc network script domain i n failed pool endpoints).1
unfolding try_endpoints
try_endpoints-IsAnswered rc network script domain i n failed pool [] positive h = absurd (cc)
try_endpoints-IsAnswered rc network script domain i n failed pool (endpoint ∷ endpoints) positive
      h =
    elim (Option-cases (get_connection (network.asked i) domain (endpoint ∷ []) pool).0) [
      | inl e ↦
          rw (try_endpoints, e)
            (try_endpoints-IsAnswered rc network script domain (i + 1) n failed
              (get_connection (network.asked i) domain (endpoint ∷ []) pool).1 endpoints positive
              (rw (try_endpoints, e) at h))
      | inr (conn, e) ↦
          rw (try_endpoints, e)
            (after_endpoint-IsAnswered rc (network.over i) script domain n conn failed
              (get_connection (network.asked i) domain (endpoint ∷ []) pool).1
              (λ calls p.
                try_endpoints rc network script domain (i + 1) (n + calls) (failed + 1) p endpoints)
              (retry_operation rc script n conn)
              (retry_operation-IsAnswered rc script n conn positive)
              (λ k p.
                try_endpoints-IsAnswered rc network script domain (i + 1) (n + k) (failed + 1) p
                  endpoints positive)
              (rw (try_endpoints, e) at h))
    ]

-- Where retries are configured, a call with retries succeeds only if one of the calls that it made
-- succeeded on its connection.
pub call_with_retry-IsAnswered :
    (rc : ResilientClient) (network : Network) (script : Script) (domain : Text)
    (pool : ConnectionPool) (endpoints : List Text)
    → 0 < rc.max_retries
    → (call_with_retry rc network script domain pool endpoints).0 ≡ ok tt
    → IsAnswered script 0 (call_with_retry rc network script domain pool endpoints).1
unfolding call_with_retry
call_with_retry-IsAnswered rc network script domain pool [] positive h = absurd (cc)
call_with_retry-IsAnswered rc network script domain pool (endpoint ∷ endpoints) positive h =
    try_endpoints-IsAnswered rc network script domain 0 0 0 pool (endpoint ∷ endpoints) positive h
