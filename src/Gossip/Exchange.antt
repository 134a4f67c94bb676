-- ===== src/Gossip/Exchange.antt =====
-- pkg/federation/gossip.go: whom to gossip with, over which connection, and what is sent. gRPC
-- comes in as a `Network`. Methods of one goroutine follow each other without another's in between.
use mathlib.Core.List.{Permᴰ}
use mathlib.Core.Option.{some-injective}
use collective.Prelude.{
  ℕ, zero, suc, ◌≤◌, ◌≡◌, refl, sym, ap, ◌∙◌, subst, Bool, true, false, Bool-cases, Option-cases,
  inl, inr, ◌&&◌, Option, none, some, List, [], ◌∷◌, ◌++◌, map, arith, if◌then◌else◌, ltb, length,
  take, All, length-take-le,
}
use collective.Prelude.Options.{◌>>=◌}
use collective.Text.{Text}
use collective.Dict.{Dict, lookup, insert, lookup-insert_self}
use collective.Address.{to_text}
use collective.Gossip.{
  GossipService, PeerState, PeerEndpoint, alive, suspected, is_alive, acquire, release, alive_peers,
  update_peer_status,
}
use collective.Gossip.Messages.{
  GossipMessage, GossipResponse, gossip_heartbeat, gossip_sync, heartbeat_payload, sync_payload,
  process_gossip_response,
}

pub record GossipRequest : Type 0 where
  pub sender_domain : Text
  pub messages : List GossipMessage
  pub version_vector : Dict ℕ

-- What the code uses of package grpc and the trust store: whether there is a TLS configuration for
-- an address, a dial, secure or not, and an exchange over a connection.
pub record Network : Type 0 where
  pub tls_config : Text → Bool
  pub dial : Bool → Text → Option ℕ
  pub exchange : ℕ → GossipRequest → Option GossipResponse

-- selectGossipPeers, by the order that the shuffle leaves
unfoldable pub select_gossip_peers :
    (List PeerState → List PeerState) → GossipService → List PeerState
unfolding alive_peers
select_gossip_peers shuffle g =
    let shuffled = shuffle (alive_peers g.peers) in
    take (if ltb (length shuffled) g.fanout then length shuffled else g.fanout) shuffled

-- prepareGossipMessage
unfoldable pub prepare_gossip_message : GossipService → ℕ → GossipMessage
prepare_gossip_message g now = record {
  type = gossip_heartbeat;
  source_address = to_text (some g.local_address);
  version = g.version;
  timestamp = now;
  payload =
      heartbeat_payload (map (λ (e : Text × PeerState). e.0) g.peers)
        (map (λ (e : Text × PeerState). (e.0, e.1.version)) g.peers);
}

module _ (network : Network) where
  -- A secure connection, where there are a certificate and a configuration; else an insecure one.
  abbrev pub dial_addr : GossipService → Text → Option ℕ
  dial_addr g addr = network.dial (g.has_certificate && network.tls_config addr) addr

  unfoldable pub dial_first : GossipService → List Text → Option ℕ
  dial_first g [] = none
  dial_first g (addr ∷ addrs) =
      let later = dial_first g addrs in
      elim (dial_addr g addr) [ none ↦ later | some conn ↦ some conn ]

  -- The loops over the endpoints: LAN first, then direct, then VPN.
  unfoldable pub dial_endpoints : GossipService → List PeerEndpoint → Option ℕ
  unfolding dial_first
  dial_endpoints g [] = none
  dial_endpoints g (endpoint ∷ endpoints) =
      let later = dial_endpoints g endpoints in
      elim (dial_first g ((endpoint.lan_ips ++ endpoint.direct_ips) ++ endpoint.vpn_ips)) [
        | none ↦ later
        | some conn ↦ some conn
      ]

  abbrev connected : GossipService → Text → Option ℕ → Option ℕ × GossipService
  connected g domain none = (none, g)
  connected g domain (some conn) =
      (some conn, record g { connections = insert domain conn g.connections })

  -- getConnection, under the lock
  unfoldable pub connect : GossipService → PeerState → Option ℕ × GossipService
  unfolding dial_endpoints
  connect g peer = elim (lookup peer.address.domain g.connections) [
    | none ↦ connected g peer.address.domain (dial_endpoints g peer.endpoints)
    | some conn ↦ (some conn, g)
  ]

  unfoldable pub get_connection : GossipService → PeerState → Option (Option ℕ × GossipService)
  unfolding connect
  get_connection g peer = do g ← acquire g; some ((connect g peer).0, release (connect g peer).1)

  -- After the exchange: an answer is worked in and the peer is alive, or it is suspected.
  unfoldable pub settle_exchange :
      GossipService → PeerState → Option GossipResponse → ℕ → Option GossipService
  settle_exchange g peer none now = update_peer_status g peer.address.domain suspected now
  settle_exchange g peer (some resp) now = do
    g ← process_gossip_response g resp now
    update_peer_status g peer.address.domain alive now

  -- gossipToPeer
  unfoldable pub gossip_to_peer :
      GossipService → PeerState → GossipMessage → ℕ → Option GossipService
  unfolding get_connection settle_exchange
  gossip_to_peer g peer msg now = do
    found ← get_connection g peer
    elim found.0 [
      | none ↦ update_peer_status found.1 peer.address.domain suspected now
      | some conn ↦
          settle_exchange found.1 peer
            (network.exchange conn (record {
              sender_domain = g.local_domain;
              messages = msg ∷ [];
              version_vector = found.1.version_vector;
            }))
            now
    ]

  -- The request of performAntiEntropy.
  abbrev pub sync_request : GossipService → ℕ → GossipRequest
  sync_request g now = record {
    sender_domain = g.local_domain;
    messages =
        record {
          type = gossip_sync;
          source_address = to_text (some g.local_address);
          version = g.version;
          timestamp = now;
          payload = sync_payload g.version_vector;
        }
        ∷ [];
    version_vector = g.version_vector;
  }

  -- performAntiEntropy; without an answer it only leaves the connection behind
  unfoldable pub perform_anti_entropy : GossipService → Text → ℕ → Option GossipService
  unfolding get_connection
  perform_anti_entropy g peer_domain now = elim (lookup peer_domain g.peers) [
    | none ↦ if g.locked then none else some g
    | some peer ↦ do
      found ← get_connection g peer
      elim found.0 [
        | none ↦ some found.1
        | some conn ↦ elim (network.exchange conn (sync_request found.1 now)) [
          | none ↦ some found.1
          | some resp ↦ process_gossip_response found.1 resp now
        ]
      ]
  ]

abbrev IsAlive : PeerState → Type 0
IsAlive peer = is_alive peer.status ≡ true

alive_peers-IsAlive : (peers : Dict PeerState) → All IsAlive (alive_peers peers)
unfolding alive_peers
alive_peers-IsAlive [] = tt
alive_peers-IsAlive ((d, p) ∷ peers) = ground (arith, alive_peers-IsAlive peers)

All-Perm : {xs ys : List PeerState} → Permᴰ xs ys → All IsAlive xs → All IsAlive ys
All-Perm Permᴰ.nil h = h
All-Perm (Permᴰ.cons e d) (p, h) = (subst IsAlive e p, All-Perm d h)
All-Perm (Permᴰ.swap e f) (p, (q, h)) = (subst IsAlive f q, (subst IsAlive e p, h))
All-Perm (Permᴰ.trans d e) h = All-Perm e (All-Perm d h)

All-take : (n : ℕ) (xs : List PeerState) → All IsAlive xs → All IsAlive (take n xs)
All-take zero xs h = tt
All-take (suc n) [] h = tt
All-take (suc n) (x ∷ xs) (p, h) = (p, All-take n xs h)

-- With a shuffle that only rearranges, a round of gossip goes to at most `fanout` peers, all alive.
select_gossip_peers-IsAlive :
    (shuffle : List PeerState → List PeerState) (g : GossipService)
    → ((xs : List PeerState) → Permᴰ xs (shuffle xs))
    → All (λ peer. is_alive peer.status ≡ true) (select_gossip_peers shuffle g)
      × (length (select_gossip_peers shuffle g) ≤ g.fanout)
unfolding select_gossip_peers
select_gossip_peers-IsAlive shuffle g rearranges =
    let shuffled = shuffle (alive_peers g.peers) in
    (
      All-take _ shuffled
          (All-Perm (rearranges (alive_peers g.peers)) (alive_peers-IsAlive g.peers)),
      ground (arith, length-take-le g.fanout shuffled, length-take-le (length shuffled) shuffled),
    )

connect-lookup :
    (network : Network) (g : GossipService) (peer : PeerState) (conn : ℕ)
    → (connect network g peer).0 ≡ some conn
    → lookup peer.address.domain (connect network g peer).1.connections ≡ some conn
unfolding connect
connect-lookup network g peer conn h =
    elim (Option-cases (lookup peer.address.domain g.connections)) [
      | inr (c, e) ↦ ground (arith, e)
      | inl e ↦ elim (Option-cases (dial_endpoints network g peer.endpoints)) [
        | inl n ↦ ground (arith, e, n)
        | inr (c, d) ↦ ground (arith, e, d, lookup-insert_self peer.address.domain c g.connections)
      ]
    ]

connect_known :
    (network : Network) (g : GossipService) (peer : PeerState) (conn : ℕ)
    → lookup peer.address.domain g.connections ≡ some conn
    → connect network g peer ≡ (some conn, g)
unfolding connect
connect_known network g peer conn h = rw (h, connect) refl

get_connection_known :
    (network : Network) (g : GossipService) (peer : PeerState) (conn : ℕ)
    → g.locked ≡ false
    → lookup peer.address.domain g.connections ≡ some conn
    → get_connection network g peer ≡ some (some conn, record g { locked = false })
unfolding get_connection acquire
get_connection_known network g peer conn free h =
    rw (free, connect_known network (record g { locked = true }) peer conn h) refl

-- A connection that `get_connection` found is found again, whatever the network does later, without
-- a change of the service, and the lock is free after it.
get_connection_again :
    (network later : Network) (g g' : GossipService) (peer : PeerState) (conn : ℕ)
    → get_connection network g peer ≡ some (some conn, g')
    → (g'.locked ≡ false) × (get_connection later g' peer ≡ some (some conn, g'))
unfolding get_connection acquire
get_connection_again network later g g' peer conn h = elim (Bool-cases g.locked) [
  | inl e ↦ ground (arith, e)
  | inr e ↦
      let held = connect network (record g { locked = true }) peer in
      let both = some-injective (held.0, release held.1) (some conn, g') (rw e at h) in
      let free : g'.locked ≡ false = sym (ap (λ (o : Option ℕ × GossipService). o.1.locked) both) in
      let stands : lookup peer.address.domain g'.connections ≡ some conn =
        sym (ap (λ (o : Option ℕ × GossipService). lookup peer.address.domain o.1.connections) both)
        ∙ connect-lookup network (record g { locked = true }) peer conn
            (ap (λ (o : Option ℕ × GossipService). o.0) both) in
      (
        free,
        get_connection_known later g' peer conn free stands
            ∙ ap (λ (b : Bool). some (some conn, record g' { locked = b })) (sym free),
      )
]
