-- ===== src/Gossip/Lock.antt =====
-- Which responses block the gossip service on its own lock.
use collective.Prelude.{
  ℕ, ◌≡◌, refl, ap, ◌∙◌, ◌↔◌, Bool, true, false, Bool-cases, inl, inr, ◌&&◌, Option, none, some,
  List, [], ◌∷◌, arith, any,
}
use collective.Prelude.Options.{◌>>=◌}
use collective.Text.{Text}
use collective.Gossip.{GossipService, acquire, remove_peer}
use collective.Gossip.Messages.{
  GossipType, gossip_join, gossip_leave, gossip_update, gossip_heartbeat, gossip_sync, other_type,
  Payload, join_payload, leave_payload, heartbeat_payload, sync_payload, other_payload,
  GossipMessage, GossipResponse, handle_join_message, handle_leave_message,
  handle_heartbeat_message, join_peer, refresh_peer, note_unknown, advance, dispatch,
  process_gossip_message, process_messages, process_gossip_response,
}

abbrev is_leave_type : GossipType → Bool
is_leave_type gossip_join = false
is_leave_type gossip_leave = true
is_leave_type gossip_update = false
is_leave_type gossip_heartbeat = false
is_leave_type gossip_sync = false
is_leave_type other_type = false

abbrev names_leaver : Payload → Bool
names_leaver (join_payload endpoints) = false
names_leaver (leave_payload domain) = true
names_leaver (heartbeat_payload known versions) = false
names_leaver (sync_payload versions) = false
names_leaver other_payload = false

-- A leave message with its payload.
abbrev pub is_leave : GossipMessage → Bool
is_leave msg = is_leave_type msg.type && names_leaver msg.payload

pub remove_peer_blocks :
    (g : GossipService) (domain : Text) → g.locked ≡ true → remove_peer g domain ≡ none
unfolding remove_peer acquire
remove_peer_blocks g domain h = rw (h, acquire) refl

note_unknown-locked :
    (g : GossipService) (domains : List Text) → (note_unknown g domains).locked ≡ g.locked
unfolding note_unknown
note_unknown-locked g [] = refl
note_unknown-locked g (d ∷ ds) = note_unknown-locked (record g { version_vector = _ }) ds

handle_join_message-locked :
    (g : GossipService) (msg : GossipMessage) (now : ℕ)
    → (handle_join_message g msg now).locked ≡ g.locked
unfolding handle_join_message join_peer
handle_join_message-locked g msg now = ground arith

handle_heartbeat_message-locked :
    (g : GossipService) (msg : GossipMessage) (now : ℕ)
    → (handle_heartbeat_message g msg now).locked ≡ g.locked
unfolding handle_heartbeat_message refresh_peer
handle_heartbeat_message-locked g msg now = grind (arith, note_unknown-locked)

handle_leave_message_blocks :
    (g : GossipService) (msg : GossipMessage)
    → g.locked ≡ true
    → names_leaver msg.payload ≡ true
    → handle_leave_message g msg ≡ none
unfolding handle_leave_message
handle_leave_message_blocks g msg h e = grind (arith, remove_peer_blocks)

handle_leave_message_passes :
    (g : GossipService) (msg : GossipMessage)
    → names_leaver msg.payload ≡ false
    → handle_leave_message g msg ≡ some g
unfolding handle_leave_message
handle_leave_message_passes g msg e = ground arith

dispatch_blocks :
    (t : GossipType) (g : GossipService) (msg : GossipMessage) (now : ℕ)
    → g.locked ≡ true
    → (is_leave_type t && names_leaver msg.payload) ≡ true
    → dispatch t g msg now ≡ none
unfolding dispatch
dispatch_blocks gossip_leave g msg now h e = handle_leave_message_blocks g msg h e
dispatch_blocks gossip_join g msg now h e = absurd cc
dispatch_blocks gossip_update g msg now h e = absurd cc
dispatch_blocks gossip_heartbeat g msg now h e = absurd cc
dispatch_blocks gossip_sync g msg now h e = absurd cc
dispatch_blocks other_type g msg now h e = absurd cc

abbrev Passes : Option GossipService → Bool → Type 0
Passes outcome locked = (g : GossipService) × (outcome ≡ some g) × (g.locked ≡ locked)

dispatch-Passes :
    (t : GossipType) (g : GossipService) (msg : GossipMessage) (now : ℕ)
    → (is_leave_type t && names_leaver msg.payload) ≡ false
    → Passes (dispatch t g msg now) g.locked
unfolding dispatch
dispatch-Passes gossip_leave g msg now e = (g, handle_leave_message_passes g msg e, refl)
dispatch-Passes gossip_join g msg now e =
    (handle_join_message g msg now, refl, handle_join_message-locked g msg now)
dispatch-Passes gossip_update g msg now e = (g, refl, refl)
dispatch-Passes gossip_heartbeat g msg now e =
    (handle_heartbeat_message g msg now, refl, handle_heartbeat_message-locked g msg now)
dispatch-Passes gossip_sync g msg now e = (g, refl, refl)
dispatch-Passes other_type g msg now e = (g, refl, refl)

-- A handler that returns leaves the lock held.
pub dispatch-locked :
    (t : GossipType) (g g' : GossipService) (msg : GossipMessage) (now : ℕ)
    → g.locked ≡ true
    → dispatch t g msg now ≡ some g'
    → g'.locked ≡ true
dispatch-locked t g g' msg now h e =
    elim (Bool-cases (is_leave_type t && names_leaver msg.payload)) [
      | inl leaves ↦ ground (arith, dispatch_blocks t g msg now h leaves)
      | inr stays ↦ let (g'', p, q) = dispatch-Passes t g msg now stays in ground (arith, p, q)
    ]

process_messages_blocks :
    (g : GossipService) (msgs : List GossipMessage) (now : ℕ)
    → g.locked ≡ true
    → any is_leave msgs ≡ true
    → process_messages g msgs now ≡ none
unfolding process_messages process_gossip_message advance
process_messages_blocks g [] now h e = absurd cc
process_messages_blocks g (m ∷ ms) now h e = elim (Bool-cases (is_leave m)) [
  | inl leaves ↦
      ap (λ o. o >>= (λ g'. process_messages g' ms now))
        (dispatch_blocks m.type (advance g m.version) m now h leaves)
  | inr stays ↦
      let (g', p, q) = dispatch-Passes m.type (advance g m.version) m now stays in
      ap (λ o. o >>= (λ g'. process_messages g' ms now)) p
      ∙ process_messages_blocks g' ms now (q ∙ h) (ground arith)
]

process_messages-Passes :
    (g : GossipService) (msgs : List GossipMessage) (now : ℕ)
    → any is_leave msgs ≡ false
    → Passes (process_messages g msgs now) g.locked
unfolding process_messages process_gossip_message advance
process_messages-Passes g [] now e = (g, refl, refl)
process_messages-Passes g (m ∷ ms) now e =
    let (g', p, q) = dispatch-Passes m.type (advance g m.version) m now (ground arith) in
    let (g'', r, s) = process_messages-Passes g' ms now (ground arith) in
    (g'', ap (λ o. o >>= (λ g'. process_messages g' ms now)) p ∙ r, s ∙ q)

-- `process_gossip_response`, which holds the lock while it handles the messages, never returns
-- exactly if one of them is a leave message that names a member: its handler calls `remove_peer`,
-- which waits for the same lock.
pub process_gossip_response_blocks_iff :
    (g : GossipService) (resp : GossipResponse) (now : ℕ)
    → g.locked ≡ false
    → (process_gossip_response g resp now ≡ none) ↔ (any is_leave resp.messages ≡ true)
unfolding process_gossip_response acquire
process_gossip_response_blocks_iff g resp now h = elim (Bool-cases (any is_leave resp.messages)) [
  | inl e ↦ (
    λ n. e,
    λ f. rw (h, process_messages_blocks (record g { locked = true }) resp.messages now refl e) refl,
  )
  | inr e ↦
      let (g', p, q) = process_messages-Passes (record g { locked = true }) resp.messages now e in
      ((λ n. absurd (ground (arith, p))), λ f. absurd cc)
]
