-- ===== src/Gossip/History.antt =====
-- The table of peers under messages, and over histories of calls.
use collective.Prelude.{
  ℕ, ◌≡◌, refl, sym, subst, Bool, Option-cases, inl, inr, Option, some, List, [], ◌∷◌, Result, ok,
  err,
}
use collective.Prelude.Options.{◌>>=◌}
use collective.Text.{Text}
use collective.Dict.{Dict, lookup}
use collective.Address.{FederatedAddress, AddressError, parse_address}
use collective.Gossip.{
  GossipService, PeerStatus, PeerEndpoint, acquire, add_peer, remove_peer, update_peer_status,
  detect_failures, set_callbacks,
}
use collective.Gossip.Messages.{
  GossipType, gossip_join, gossip_leave, gossip_update, gossip_heartbeat, gossip_sync, other_type,
  GossipMessage, join_payload, leave_payload, heartbeat_payload, sync_payload, other_payload,
  GossipResponse, Payload, EndpointMessage, handle_join_message, handle_leave_message,
  handle_heartbeat_message, join_peer, refresh_peer, note_unknown, advance, dispatch,
  process_gossip_message, process_messages, process_gossip_response,
}
use collective.Gossip.Table.{
  IsIndexed, HasIndex, Holds, insert-IsIndexed, replace-IsIndexed, bind-Holds, acquire-HasIndex,
  add_peer-HasIndex, remove_peer-HasIndex, update_peer_status-HasIndex, set_callbacks-HasIndex,
  detect_failures-HasIndex,
}

pub data GossipCall : Type 0 where
  adds : FederatedAddress → List PeerEndpoint → ℕ → GossipCall
  removes : Text → GossipCall
  marks : Text → PeerStatus → ℕ → GossipCall
  receives : GossipResponse → ℕ → GossipCall
  detects : ℕ → ℕ → ℕ → GossipCall
  listens : Bool → Bool → GossipCall

unfoldable pub apply : GossipService → GossipCall → Option GossipService
apply g (adds address endpoints now) = add_peer g address endpoints now
apply g (removes domain) = remove_peer g domain
apply g (marks domain status now) = update_peer_status g domain status now
apply g (receives resp now) = process_gossip_response g resp now
apply g (detects suspect_timeout dead_timeout now) =
    detect_failures g suspect_timeout dead_timeout now
apply g (listens on_join on_leave) = set_callbacks g on_join on_leave

unfoldable pub run : GossipService → List GossipCall → Option GossipService
unfolding apply
run g [] = some g
run g (call ∷ calls) = do g ← apply g call; run g calls

note_unknown-peers :
    (g : GossipService) (domains : List Text) → (note_unknown g domains).peers ≡ g.peers
unfolding note_unknown
note_unknown-peers g [] = refl
note_unknown-peers g (d ∷ ds) = note_unknown-peers (record g { version_vector = _ }) ds

handle_join_message-HasIndex :
    (g : GossipService) (msg : GossipMessage) (now : ℕ)
    → HasIndex g
    → HasIndex (handle_join_message g msg now)
unfolding handle_join_message join_peer
handle_join_message-HasIndex g msg now h = at_payload msg.payload refl
  where
    at_sender :
        (endpoints : List EndpointMessage) (sender : Result AddressError FederatedAddress)
        → msg.payload ≡ join_payload endpoints
        → parse_address msg.source_address ≡ sender
        → HasIndex (handle_join_message g msg now)
    at_sender endpoints (err e) p q = rw (p, q, handle_join_message) h
    at_sender endpoints (ok addr) p q =
        rw (p, q, handle_join_message) (insert-IsIndexed addr.domain _ g.peers refl h)

    at_payload : (p : Payload) → msg.payload ≡ p → HasIndex (handle_join_message g msg now)
    at_payload (join_payload endpoints) p =
        at_sender endpoints (parse_address msg.source_address) p refl
    at_payload (leave_payload domain) p = rw (p, handle_join_message) h
    at_payload (heartbeat_payload known versions) p = rw (p, handle_join_message) h
    at_payload (sync_payload versions) p = rw (p, handle_join_message) h
    at_payload other_payload p = rw (p, handle_join_message) h

refresh_peer-HasIndex :
    (g : GossipService) (msg : GossipMessage) (now : ℕ) (addr : FederatedAddress)
    → HasIndex g
    → HasIndex (refresh_peer g msg now addr)
unfolding refresh_peer
refresh_peer-HasIndex g msg now addr h = elim (Option-cases (lookup addr.domain g.peers)) [
  | inl e ↦ rw (e, refresh_peer) h
  | inr (peer, e) ↦ rw (e, refresh_peer) (replace-IsIndexed addr.domain peer _ g.peers e refl h)
]

handle_heartbeat_message-HasIndex :
    (g : GossipService) (msg : GossipMessage) (now : ℕ)
    → HasIndex g
    → HasIndex (handle_heartbeat_message g msg now)
unfolding handle_heartbeat_message
handle_heartbeat_message-HasIndex g msg now h = at_payload msg.payload refl
  where
    at_sender :
        (known : List Text) (versions : Dict ℕ) (sender : Result AddressError FederatedAddress)
        → msg.payload ≡ heartbeat_payload known versions
        → parse_address msg.source_address ≡ sender
        → HasIndex (handle_heartbeat_message g msg now)
    at_sender known versions (err e) p q = rw (p, q, handle_heartbeat_message) h
    at_sender known versions (ok addr) p q =
        rw (p, q, handle_heartbeat_message)
          (subst IsIndexed (sym (note_unknown-peers (refresh_peer g msg now addr) known))
            (refresh_peer-HasIndex g msg now addr h))

    at_payload : (p : Payload) → msg.payload ≡ p → HasIndex (handle_heartbeat_message g msg now)
    at_payload (join_payload endpoints) p = rw (p, handle_heartbeat_message) h
    at_payload (leave_payload domain) p = rw (p, handle_heartbeat_message) h
    at_payload (heartbeat_payload known versions) p =
        at_sender known versions (parse_address msg.source_address) p refl
    at_payload (sync_payload versions) p = rw (p, handle_heartbeat_message) h
    at_payload other_payload p = rw (p, handle_heartbeat_message) h

handle_leave_message-HasIndex :
    (g : GossipService) (msg : GossipMessage)
    → HasIndex g
    → Holds HasIndex (handle_leave_message g msg)
unfolding handle_leave_message
handle_leave_message-HasIndex g msg h = at_payload msg.payload refl
  where
    at_payload : (p : Payload) → msg.payload ≡ p → Holds HasIndex (handle_leave_message g msg)
    at_payload (join_payload endpoints) p = rw (p, handle_leave_message) h
    at_payload (leave_payload domain) p =
        rw (p, handle_leave_message) (remove_peer-HasIndex g domain h)
    at_payload (heartbeat_payload known versions) p = rw (p, handle_leave_message) h
    at_payload (sync_payload versions) p = rw (p, handle_leave_message) h
    at_payload other_payload p = rw (p, handle_leave_message) h

dispatch-HasIndex :
    (t : GossipType) (g : GossipService) (msg : GossipMessage) (now : ℕ)
    → HasIndex g
    → Holds HasIndex (dispatch t g msg now)
unfolding dispatch
dispatch-HasIndex gossip_join g msg now h = handle_join_message-HasIndex g msg now h
dispatch-HasIndex gossip_leave g msg now h = handle_leave_message-HasIndex g msg h
dispatch-HasIndex gossip_update g msg now h = h
dispatch-HasIndex gossip_heartbeat g msg now h = handle_heartbeat_message-HasIndex g msg now h
dispatch-HasIndex gossip_sync g msg now h = h
dispatch-HasIndex other_type g msg now h = h

process_messages-HasIndex :
    (g : GossipService) (msgs : List GossipMessage) (now : ℕ)
    → HasIndex g
    → Holds HasIndex (process_messages g msgs now)
unfolding process_messages process_gossip_message advance
process_messages-HasIndex g [] now h = h
process_messages-HasIndex g (m ∷ ms) now h =
    bind-Holds HasIndex (dispatch m.type (advance g m.version) m now) _
      (dispatch-HasIndex m.type (advance g m.version) m now h)
      (λ g' h'. process_messages-HasIndex g' ms now h')

process_gossip_response-HasIndex :
    (g : GossipService) (resp : GossipResponse) (now : ℕ)
    → HasIndex g
    → Holds HasIndex (process_gossip_response g resp now)
unfolding process_gossip_response
process_gossip_response-HasIndex g resp now h =
    bind-Holds HasIndex (acquire g) _ (acquire-HasIndex g h) (λ g' h'.
      bind-Holds HasIndex (process_messages g' resp.messages now) _
        (process_messages-HasIndex g' resp.messages now h') (λ g'' h''. h''))

run-Holds :
    (calls : List GossipCall) (g : GossipService) → HasIndex g → Holds HasIndex (run g calls)
unfolding run apply
run-Holds [] g h = h
run-Holds (call ∷ calls) g h =
    bind-Holds HasIndex (apply g call) _ (one call) (λ g' h'. run-Holds calls g' h')
  where
    one : (c : GossipCall) → Holds HasIndex (apply g c)
    one (adds address endpoints now) = add_peer-HasIndex g address endpoints now h
    one (removes domain) = remove_peer-HasIndex g domain h
    one (marks domain status now) = update_peer_status-HasIndex g domain status now h
    one (receives resp now) = process_gossip_response-HasIndex g resp now h
    one (detects s d now) = detect_failures-HasIndex g s d now h
    one (listens on_join on_leave) = set_callbacks-HasIndex g on_join on_leave h

-- After any history of calls that all return, every peer stands once in the table, under the domain
-- of its own address, where that was so before.
pub run-IsIndexed :
    (g g' : GossipService) (calls : List GossipCall)
    → IsIndexed g.peers
    → run g calls ≡ some g'
    → IsIndexed g'.peers
run-IsIndexed g g' calls h e = subst (Holds HasIndex) e (run-Holds calls g h)
