-- ===== src/Gossip/Messages.antt =====
-- pkg/federation/gossip.go: the handlers of gossip messages.
use collective.Prelude.{
  ℕ, ◌*◌, Bool, not, ◌&&◌, Option, none, some, List, [], ◌∷◌, map, if◌then◌else◌, ltb, ok, err,
}
use collective.Prelude.Options.{◌>>=◌}
use collective.Text.{Text, same}
use collective.Dict.{Dict, lookup, insert, is_some}
use collective.Address.{FederatedAddress, parse_address}
use collective.Gossip.{
  GossipService, PeerState, PeerEndpoint, alive, acquire, release, increment, call_join,
  remove_peer,
}

-- The enum and the oneof of the protocol's GossipMessage; the two are set independently.
pub data GossipType : Type 0 where
  gossip_join gossip_leave gossip_update gossip_heartbeat gossip_sync other_type : GossipType

-- A PeerEndpoint of the protocol, its latency in milliseconds
pub record EndpointMessage : Type 0 where
  pub domain : Text
  pub direct_ips : List Text
  pub vpn_ips : List Text
  pub lan_ips : List Text
  pub latency_ms : ℕ
  pub preference : ℕ

pub data Payload : Type 0 where
  join_payload : List EndpointMessage → Payload
  leave_payload : Text → Payload
  heartbeat_payload : List Text → Dict ℕ → Payload
  sync_payload : Dict ℕ → Payload
  other_payload : Payload

pub record GossipMessage : Type 0 where
  pub type : GossipType
  pub source_address : Text
  pub version : ℕ
  pub timestamp : ℕ
  pub payload : Payload

abbrev pub to_endpoint : ℕ → EndpointMessage → PeerEndpoint
to_endpoint now ep = record {
  domain = ep.domain;
  direct_ips = ep.direct_ips;
  vpn_ips = ep.vpn_ips;
  lan_ips = ep.lan_ips;
  last_seen = now;
  latency = ep.latency_ms * 1000000;
  preference = ep.preference;
}

unfoldable pub join_peer :
    GossipService → GossipMessage → List EndpointMessage → ℕ → FederatedAddress → GossipService
join_peer g msg endpoints now addr =
    let peer : PeerState = record {
      address = addr;
      endpoints = map (to_endpoint now) endpoints;
      last_seen = msg.timestamp;
      version = msg.version;
      data_stores = [];
      status = alive;
    } in
    call_join peer (record g { peers = insert addr.domain peer g.peers })

-- handleJoinMessage
unfoldable pub handle_join_message : GossipService → GossipMessage → ℕ → GossipService
unfolding join_peer
handle_join_message g msg now = elim msg.payload [
  | join_payload endpoints ↦ elim (parse_address msg.source_address) [
    | err e ↦ g
    | ok addr ↦ join_peer g msg endpoints now addr
  ]
  | leave_payload domain ↦ g
  | heartbeat_payload known versions ↦ g
  | sync_payload versions ↦ g
  | other_payload ↦ g
]

-- The sender's entry, where it has one.
unfoldable pub refresh_peer : GossipService → GossipMessage → ℕ → FederatedAddress → GossipService
refresh_peer g msg now addr = elim (lookup addr.domain g.peers) [
  | none ↦ g
  | some peer ↦ record g {
    peers =
        insert addr.domain (record peer { last_seen = now; version = msg.version; status = alive })
          g.peers;
  }
]

-- The loop over the known peers of a heartbeat.
unfoldable pub note_unknown : GossipService → List Text → GossipService
note_unknown g [] = g
note_unknown g (domain ∷ domains) =
    note_unknown
      (record g {
        version_vector =
            if not (is_some (lookup domain g.peers)) && not (same domain g.local_domain)
            then insert domain 0 g.version_vector
            else g.version_vector;
      })
      domains

-- handleHeartbeatMessage
unfoldable pub handle_heartbeat_message : GossipService → GossipMessage → ℕ → GossipService
unfolding refresh_peer note_unknown
handle_heartbeat_message g msg now = elim msg.payload [
  | join_payload endpoints ↦ g
  | leave_payload domain ↦ g
  | heartbeat_payload known versions ↦ elim (parse_address msg.source_address) [
    | err e ↦ g
    | ok addr ↦ note_unknown (refresh_peer g msg now addr) known
  ]
  | sync_payload versions ↦ g
  | other_payload ↦ g
]

-- handleLeaveMessage
unfoldable pub handle_leave_message : GossipService → GossipMessage → Option GossipService
handle_leave_message g msg = elim msg.payload [
  | join_payload endpoints ↦ some g
  | leave_payload domain ↦ remove_peer g domain
  | heartbeat_payload known versions ↦ some g
  | sync_payload versions ↦ some g
  | other_payload ↦ some g
]

-- The Lamport clock at a message.
unfoldable pub advance : GossipService → ℕ → GossipService
advance g version = record g {
  version = increment (if ltb g.version version then version else g.version);
}

-- The switch of processGossipMessage.
unfoldable pub dispatch : GossipType → GossipService → GossipMessage → ℕ → Option GossipService
unfolding handle_join_message handle_leave_message handle_heartbeat_message
dispatch gossip_join g msg now = some (handle_join_message g msg now)
dispatch gossip_leave g msg now = handle_leave_message g msg
dispatch gossip_update g msg now = some g
dispatch gossip_heartbeat g msg now = some (handle_heartbeat_message g msg now)
dispatch gossip_sync g msg now = some g
dispatch other_type g msg now = some g

-- processGossipMessage
unfoldable pub process_gossip_message : GossipService → GossipMessage → ℕ → Option GossipService
unfolding advance dispatch
process_gossip_message g msg now = dispatch msg.type (advance g msg.version) msg now

unfoldable pub process_messages : GossipService → List GossipMessage → ℕ → Option GossipService
unfolding process_gossip_message
process_messages g [] now = some g
process_messages g (msg ∷ msgs) now = do
  g ← process_gossip_message g msg now
  process_messages g msgs now

-- A version vector's entry, 0 where there is none
abbrev pub version_of : Text → Dict ℕ → ℕ
version_of domain vector = elim (lookup domain vector) [ none ↦ 0 | some v ↦ v ]

-- The loop over the version vector of a response.
unfoldable pub merge_versions : Dict ℕ → Dict ℕ → Dict ℕ
merge_versions vector [] = vector
merge_versions vector ((domain, version) ∷ versions) =
    merge_versions
      (if ltb (version_of domain vector) version then insert domain version vector else vector)
      versions

pub record GossipResponse : Type 0 where
  pub responder_domain : Text
  pub messages : List GossipMessage
  pub version_vector : Dict ℕ
  pub need_sync : Bool

-- processGossipResponse, up to the sync that it starts as a goroutine of its own
unfoldable pub process_gossip_response : GossipService → GossipResponse → ℕ → Option GossipService
unfolding process_messages merge_versions
process_gossip_response g resp now = do
  g ← acquire g
  g ← process_messages g resp.messages now
  some (release (record g { version_vector = merge_versions g.version_vector resp.version_vector }))
