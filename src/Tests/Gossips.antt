-- ===== src/Tests/Gossips.antt =====
-- Gossip.
use collective.Prelude.{
  ◌⊎◌, ℕ, ◌+◌, ◌≤◌, ◌<◌, ◌≡◌, refl, ◌↔◌, true, false, none, some, List, [], ◌∷◌, arith, any, All,
  ok, if◌then◌else◌,
}
use collective.Text.{Text, bytes, same}
use collective.Text.Split.{split}
use collective.Text.{contains, has_prefix}
use collective.Dict.{lookup, insert}
use collective.Address.{FederatedAddress, parse_address}
use collective.Gossip.{
  GossipService, PeerState, PeerStatus, alive, dead, new_gossip_service, add_peer, detect_failures,
  acquire, increment_version, increment, peer_joined, peer_left,
}
use collective.Gossip.Messages.{
  GossipMessage, GossipResponse, gossip_leave, gossip_heartbeat, leave_payload, heartbeat_payload,
  process_gossip_response, process_gossip_message, process_messages, version_of,
}
use collective.Gossip.Lock.{is_leave, process_gossip_response_blocks_iff}
use collective.Gossip.Versions.{larger, names}
use collective.Gossip.Clock.{process_gossip_response-version, process_gossip_message-version_wraps}
use collective.Gossip.Detector.{IsJudged, detect_failures-IsJudged}
use collective.Gossip.Table.{IsIndexed}
use collective.Gossip.History.{GossipCall, adds, detects, run, run-IsIndexed}
use collective.Gossip.Exchange.{Network, get_connection}

abbrev coord : Text → FederatedAddress
coord domain = record { local_part = bytes "coord"; domain = domain; resource = [] }

abbrev peer_at : Text → ℕ → PeerStatus → PeerState
peer_at domain seen status = record {
  address = coord domain;
  endpoints =
      record {
        domain = domain;
        direct_ips = bytes "1.2.3.4" ∷ [];
        vpn_ips = [];
        lan_ips = bytes "10.0.0.4" ∷ [];
        last_seen = seen;
        latency = 0;
        preference = 0;
      }
      ∷ [];
  last_seen = seen;
  version = 0;
  data_stores = [];
  status = status;
}

abbrev service : GossipService
service = record {
  locked = false;
  local_domain = bytes "a.l";
  local_address = coord (bytes "a.l");
  peers =
      (bytes "b.l", peer_at (bytes "b.l") 5 alive)
      ∷ (bytes "c.l", peer_at (bytes "c.l") 90 alive)
      ∷ [];
  gossip_period = 10;
  fanout = 1;
  version = 7;
  version_vector = (bytes "b.l", 4) ∷ [];
  on_peer_join = true;
  on_peer_leave = true;
  called = [];
  connections = [];
  has_certificate = false;
}

service_opens :
    new_gossip_service (bytes "a.l") false
    ≡ ok (record service {
      peers = [];
      gossip_period = 30000000000;
      fanout = 3;
      version = 0;
      version_vector = [];
      on_peer_join = false;
      on_peer_leave = false;
    })
unfolding new_gossip_service parse_address split has_prefix contains
service_opens = refl

abbrev leave : GossipMessage
leave = record {
  type = gossip_leave;
  source_address = bytes "coord@c.l";
  version = 3;
  timestamp = 0;
  payload = leave_payload (bytes "c.l");
}

abbrev heartbeat : ℕ → GossipMessage
heartbeat version = record {
  type = gossip_heartbeat;
  source_address = bytes "coord@b.l";
  version = version;
  timestamp = 0;
  payload = heartbeat_payload (bytes "d.l" ∷ []) [];
}

abbrev answer : List GossipMessage → GossipResponse
answer messages = record {
  responder_domain = bytes "b.l";
  messages = messages;
  version_vector = (bytes "b.l", 9) ∷ [];
  need_sync = false;
}

process_gossip_response_blocks_iff_example :
    (process_gossip_response service (answer (leave ∷ [])) 100 ≡ none)
    ↔ (any is_leave (answer (leave ∷ [])).messages ≡ true)
process_gossip_response_blocks_iff_example =
    process_gossip_response_blocks_iff service (answer (leave ∷ [])) 100 refl

-- The service after a heartbeat of b.l.
abbrev refreshed : GossipService
refreshed = record service {
  version = 12;
  version_vector = (bytes "b.l", 9) ∷ (bytes "d.l", 0) ∷ [];
  peers =
      (bytes "b.l", record (peer_at (bytes "b.l") 5 alive) { last_seen = 100; version = 11 })
      ∷ (bytes "c.l", peer_at (bytes "c.l") 90 alive)
      ∷ [];
}

heartbeat_refreshes :
    process_gossip_response service (answer (heartbeat 11 ∷ [])) 100 ≡ some refreshed
unfolding process_gossip_response process_messages process_gossip_message acquire parse_address
    split contains has_prefix lookup same insert increment
heartbeat_refreshes = refl

process_gossip_response-version_example :
    (7 + 1 ≤ refreshed.version)
    × All (λ m. m.version < refreshed.version) (heartbeat 11 ∷ [])
    × ((domain : Text)
        → (version_of domain refreshed.version_vector
            ≡ larger
                (version_of domain ((bytes "b.l", 4) ∷ []))
                (version_of domain ((bytes "b.l", 9) ∷ [])))
          ⊎ ((any (names domain) (heartbeat 11 ∷ []) ≡ true)
              × (version_of domain refreshed.version_vector
                  ≡ version_of domain ((bytes "b.l", 9) ∷ []))))
    × (refreshed.locked ≡ false)
process_gossip_response-version_example =
    process_gossip_response-version service refreshed (answer (heartbeat 11 ∷ [])) 100 11
      heartbeat_refreshes (tt, tt) (omega arith) (omega arith, tt) (omega arith)

abbrev held : GossipService
held = record service { locked = true }

abbrev set_back : GossipService
set_back = record held {
  version = 0;
  version_vector = (bytes "b.l", 4) ∷ (bytes "d.l", 0) ∷ [];
  peers =
      (
        bytes "b.l",
        record (peer_at (bytes "b.l") 5 alive) { last_seen = 100; version = 18446744073709551615 },
      )
      ∷ (bytes "c.l", peer_at (bytes "c.l") 90 alive)
      ∷ [];
}

top_sets_back : process_gossip_message held (heartbeat 18446744073709551615) 100 ≡ some set_back
unfolding process_gossip_message parse_address split contains has_prefix lookup same insert
    increment
top_sets_back = refl

process_gossip_message-version_wraps_example : set_back.version ≡ 0
process_gossip_message-version_wraps_example =
    process_gossip_message-version_wraps held set_back (heartbeat 18446744073709551615) 100 refl
      (omega arith) refl top_sets_back

detect_failures-IsJudged_example :
    (g' : GossipService) × (detect_failures service 30 60 100 ≡ some g')
    × (g'.locked ≡ false)
    × ((domain : Text) → lookup domain service.peers ≡ none → lookup domain g'.peers ≡ none)
    × ((domain : Text) (peer : PeerState)
        → lookup domain service.peers ≡ some peer
        → (after : PeerState) × (lookup domain g'.peers ≡ some after)
          × IsJudged 30 60 100 peer after)
detect_failures-IsJudged_example = detect_failures-IsJudged service 30 60 100 refl (omega arith)

abbrev calls : List GossipCall
calls = adds (coord (bytes "d.l")) [] 100 ∷ detects 30 60 100 ∷ []

service-IsIndexed : IsIndexed service.peers
unfolding same
service-IsIndexed = ((refl, (refl, tt)), ((refl, tt), (tt, tt)))

abbrev new_peer : PeerState
new_peer = record {
  address = coord (bytes "d.l");
  endpoints = [];
  last_seen = 100;
  version = 0;
  data_stores = [];
  status = alive;
}

abbrev later_service : GossipService
later_service = record service {
  version = 8;
  version_vector = (bytes "b.l", 4) ∷ (bytes "a.l", 8) ∷ [];
  peers =
      (bytes "b.l", peer_at (bytes "b.l") 5 dead)
      ∷ (bytes "c.l", peer_at (bytes "c.l") 90 alive)
      ∷ (bytes "d.l", new_peer)
      ∷ [];
  called = peer_joined new_peer ∷ peer_left (bytes "b.l") ∷ [];
}

calls_return : run service calls ≡ some later_service
unfolding run add_peer detect_failures acquire insert same increment increment_version
calls_return = refl

run-IsIndexed_example : IsIndexed later_service.peers
run-IsIndexed_example = run-IsIndexed service later_service calls service-IsIndexed calls_return

-- Only the direct address answers.
abbrev direct_only : Network
direct_only = record {
  tls_config = λ addr. false;
  dial = λ secure addr. if same addr (bytes "1.2.3.4") then some 7 else none;
  exchange = λ conn request. none;
}

abbrev nothing : Network
nothing = record {
  tls_config = λ addr. false;
  dial = λ secure addr. none;
  exchange = λ conn request. none;
}

abbrev linked : GossipService
linked = record service { connections = (bytes "b.l", 7) ∷ [] }

direct_connects :
    get_connection direct_only service (peer_at (bytes "b.l") 5 alive) ≡ some (some 7, linked)
unfolding get_connection acquire same insert lookup
direct_connects = refl
