-- ===== src/Gossip.antt =====
-- pkg/federation/gossip.go: the peer table, its lock, and the failure detector. A method that waits
-- for a lock that is held, and so never returns, is none. Callbacks, which the code starts as
-- goroutines, are recorded in order; times are natural numbers of nanoseconds.
pub mod Messages
pub mod Exchange
pub mod Detector
pub mod Versions
pub mod Clock
pub mod Lock
pub mod Table
pub mod History
use collective.Prelude.{
  ℕ, zero, suc, ◌+◌, ◌-◌, ◌*◌, ◌%◌, ◌^◌, ◌≡◌, Bool, true, false, not, ◌&&◌, ◌||◌, Option, none,
  some, List, [], ◌∷◌, ◌++◌, map, arith, if◌then◌else◌, ltb, leb, ◌==◌, length, take, keep, any,
  Result, ok, err,
}
use collective.Prelude.Options.{◌>>=◌}
use collective.Text.{Text, bytes, same}
use collective.Dict.{Dict, lookup, insert, erase, is_some}
use collective.Address.{FederatedAddress, parse_address, AddressError}

pub data PeerStatus : Type 0 where
  unknown alive suspected dead : PeerStatus

abbrev pub is_alive : PeerStatus → Bool
is_alive unknown = false
is_alive alive = true
is_alive suspected = false
is_alive dead = false

abbrev pub is_dead : PeerStatus → Bool
is_dead unknown = false
is_dead alive = false
is_dead suspected = false
is_dead dead = true

pub record PeerEndpoint : Type 0 where
  pub domain : Text
  pub direct_ips : List Text
  pub vpn_ips : List Text
  pub lan_ips : List Text
  pub last_seen : ℕ
  pub latency : ℕ
  pub preference : ℕ

pub record PeerState : Type 0 where
  pub address : FederatedAddress
  pub endpoints : List PeerEndpoint
  pub last_seen : ℕ
  pub version : ℕ
  pub data_stores : List Text
  pub status : PeerStatus

pub data Callback : Type 0 where
  peer_joined : PeerState → Callback
  peer_left : Text → Callback

-- The fields that the methods read or write; connections are named by numbers.
pub record GossipService : Type 0 where
  pub locked : Bool
  pub local_domain : Text
  pub local_address : FederatedAddress
  pub peers : Dict PeerState
  pub gossip_period : ℕ
  pub fanout : ℕ
  pub version : ℕ
  pub version_vector : Dict ℕ
  pub on_peer_join : Bool
  pub on_peer_leave : Bool
  pub called : List Callback
  pub connections : Dict ℕ
  pub has_certificate : Bool

-- g.mu.Lock and g.mu.Unlock
unfoldable pub acquire : GossipService → Option GossipService
acquire g = if g.locked then none else some (record g { locked = true })

abbrev pub release : GossipService → GossipService
release g = record g { locked = false }

-- NewGossipService
unfoldable pub new_gossip_service : Text → Bool → Result AddressError GossipService
new_gossip_service local_domain has_certificate =
    elim (parse_address (bytes "coord@" ++ local_domain)) [
      | err e ↦ err e
      | ok addr ↦ ok (record {
        locked = false;
        local_domain = local_domain;
        local_address = addr;
        peers = [];
        gossip_period = 30000000000;
        fanout = 3;
        version = 0;
        version_vector = [];
        on_peer_join = false;
        on_peer_leave = false;
        called = [];
        connections = [];
        has_certificate = has_certificate;
      })
    ]

-- `version++` on a uint64
unfoldable pub increment : ℕ → ℕ
increment n = (n + 1) % 2 ^ 64

-- incrementVersion
unfoldable pub increment_version : GossipService → GossipService
increment_version g = record g {
  version = increment g.version;
  version_vector = insert g.local_domain (increment g.version) g.version_vector;
}

abbrev pub call_join : PeerState → GossipService → GossipService
call_join peer g = record g {
  called = if g.on_peer_join then g.called ++ (peer_joined peer ∷ []) else g.called;
}

abbrev pub call_leave : Text → GossipService → GossipService
call_leave domain g = record g {
  called = if g.on_peer_leave then g.called ++ (peer_left domain ∷ []) else g.called;
}

-- AddPeer
unfoldable pub add_peer :
    GossipService → FederatedAddress → List PeerEndpoint → ℕ → Option GossipService
add_peer g address endpoints now = do
  g ← acquire g
  let peer : PeerState = record {
    address = address;
    endpoints = endpoints;
    last_seen = now;
    version = 0;
    data_stores = [];
    status = alive;
  }
  some (
      release (
        call_join peer
          (increment_version (record g { peers = insert address.domain peer g.peers }))))

-- RemovePeer
unfoldable pub remove_peer : GossipService → Text → Option GossipService
remove_peer g domain = do
  g ← acquire g
  some (
      release (
        call_leave domain (record (increment_version (record g { peers = erase domain g.peers })) {
          connections = erase domain g.connections;
        })))

-- updatePeerStatus
unfoldable pub update_peer_status : GossipService → Text → PeerStatus → ℕ → Option GossipService
update_peer_status g domain status now = do
  g ← acquire g
  some (
      release (elim (lookup domain g.peers) [
        | none ↦ g
        | some peer ↦ record g {
          peers =
              insert domain
                (record peer {
                  status = status;
                  last_seen = if is_alive status then now else peer.last_seen;
                })
                g.peers;
        }
      ]))

-- The peers that the loops over the table pick out, in some order.
unfoldable pub alive_peers : Dict PeerState → List PeerState
alive_peers [] = []
alive_peers ((domain, peer) ∷ peers) =
    let rest = alive_peers peers in if is_alive peer.status then peer ∷ rest else rest

-- GetHealthyPeers
unfoldable pub get_healthy_peers : GossipService → Option (List PeerState)
unfolding alive_peers
get_healthy_peers g = if g.locked then none else some (alive_peers g.peers)

-- SetCallbacks
unfoldable pub set_callbacks : GossipService → Bool → Bool → Option GossipService
set_callbacks g on_join on_leave = do
  g ← acquire g
  some (release (record g { on_peer_join = on_join; on_peer_leave = on_leave }))

-- One peer in the loop of detectFailures. Where the clock stands before `last_seen`, the source's
-- negative difference passes no timeout either.
unfoldable pub judge : ℕ → ℕ → ℕ → PeerState → PeerState
judge suspect_timeout dead_timeout now peer =
    let elapsed = now - peer.last_seen in
    if ltb dead_timeout elapsed
    then record peer { status = dead }
    else if ltb suspect_timeout elapsed && is_alive peer.status
    then record peer { status = suspected }
    else peer

unfoldable pub judge_all : ℕ → ℕ → ℕ → Dict PeerState → Dict PeerState
unfolding judge
judge_all suspect_timeout dead_timeout now [] = []
judge_all suspect_timeout dead_timeout now ((domain, peer) ∷ peers) =
    (domain, judge suspect_timeout dead_timeout now peer)
    ∷ judge_all suspect_timeout dead_timeout now peers

-- The callbacks of that loop: for peers that were not dead yet.
unfoldable pub lost : ℕ → ℕ → Dict PeerState → List Callback
lost dead_timeout now [] = []
lost dead_timeout now ((domain, peer) ∷ peers) =
    let rest = lost dead_timeout now peers in
    if ltb dead_timeout (now - peer.last_seen) && not (is_dead peer.status)
    then peer_left domain ∷ rest
    else rest

-- detectFailures
unfoldable pub detect_failures : GossipService → ℕ → ℕ → ℕ → Option GossipService
unfolding judge_all lost
detect_failures g suspect_timeout dead_timeout now = do
  g ← acquire g
  some (
      release (record g {
        peers = judge_all suspect_timeout dead_timeout now g.peers;
        called = if g.on_peer_leave then g.called ++ lost dead_timeout now g.peers else g.called;
      }))

-- A tick of failureDetectorLoop.
abbrev pub failure_detector_tick : GossipService → ℕ → Option GossipService
failure_detector_tick g now = detect_failures g (g.gossip_period * 3) (g.gossip_period * 6) now
