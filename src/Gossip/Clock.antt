-- ===== src/Gossip/Clock.antt =====
-- The Lamport clock and the version vector under gossip.
use collective.Prelude.{
  ℕ, ◌+◌, ◌≤◌, ◌<◌, ◌≡◌, refl, subst, ◌∙◌, true, false, Bool-cases, Option-cases, inl, inr, some,
  List, [], ◌∷◌, arith, length, All, any, ◌⊎◌,
}
use mathlib.Core.Option.{some-injective}
use collective.Text.{Text}
use collective.Gossip.{GossipService, acquire, release, increment}
use collective.Gossip.Messages.{
  GossipType, gossip_join, gossip_leave, gossip_update, gossip_heartbeat, gossip_sync, other_type,
  GossipMessage, GossipResponse, handle_join_message, handle_leave_message,
  handle_heartbeat_message, join_peer, refresh_peer, note_unknown, advance, dispatch,
  process_gossip_message, process_messages, process_gossip_response, merge_versions, version_of,
}
use collective.Dict.Keys.{Distinct}
use collective.Gossip.Versions.{
  larger, names, Noted, version_of-merge_versions, process_messages-cons, process_messages-Noted,
}
use collective.Gossip.Lock.{remove_peer_blocks, dispatch-locked}

increment-small : (n : ℕ) → n + 1 < 18446744073709551616 → increment n ≡ n + 1
unfolding increment
increment-small n h = ground arith

note_unknown-version :
    (g : GossipService) (domains : List Text) → (note_unknown g domains).version ≡ g.version
unfolding note_unknown
note_unknown-version g [] = refl
note_unknown-version g (d ∷ ds) = note_unknown-version (record g { version_vector = _ }) ds

handle_join_message-version :
    (g : GossipService) (msg : GossipMessage) (now : ℕ)
    → (handle_join_message g msg now).version ≡ g.version
unfolding handle_join_message join_peer
handle_join_message-version g msg now = ground arith

handle_heartbeat_message-version :
    (g : GossipService) (msg : GossipMessage) (now : ℕ)
    → (handle_heartbeat_message g msg now).version ≡ g.version
unfolding handle_heartbeat_message refresh_peer
handle_heartbeat_message-version g msg now = grind (arith, note_unknown-version)

handle_leave_message-version :
    (g g' : GossipService) (msg : GossipMessage)
    → g.locked ≡ true
    → handle_leave_message g msg ≡ some g'
    → g'.version ≡ g.version
unfolding handle_leave_message
handle_leave_message-version g g' msg h e = grind (arith, remove_peer_blocks)

-- The handlers leave the clock alone.
dispatch-version :
    (t : GossipType) (g g' : GossipService) (msg : GossipMessage) (now : ℕ)
    → g.locked ≡ true
    → dispatch t g msg now ≡ some g'
    → g'.version ≡ g.version
unfolding dispatch
dispatch-version gossip_leave g g' msg now h e = handle_leave_message-version g g' msg h e
dispatch-version gossip_join g g' msg now h e =
    ground (arith, handle_join_message-version g msg now)
dispatch-version gossip_update g g' msg now h e = ground arith
dispatch-version gossip_heartbeat g g' msg now h e =
    ground (arith, handle_heartbeat_message-version g msg now)
dispatch-version gossip_sync g g' msg now h e = ground arith
dispatch-version other_type g g' msg now h e = ground arith

advance_small :
    (g : GossipService) (version bound : ℕ)
    → g.version ≤ bound
    → version ≤ bound
    → bound + 1 < 18446744073709551616
    → (g.version + 1 ≤ (advance g version).version)
      × (version < (advance g version).version)
      × ((advance g version).version ≤ bound + 1)
unfolding advance
advance_small g version bound h k small =
    ground (arith, increment-small g.version (omega arith), increment-small version (omega arith))

All-raised :
    (bound bound' : ℕ) (ms : List GossipMessage)
    → bound ≤ bound'
    → All (λ m. m.version ≤ bound) ms
    → All (λ m. m.version ≤ bound') ms
All-raised bound bound' [] h a = tt
All-raised bound bound' (m ∷ ms) h (p, a) = (omega arith, All-raised bound bound' ms h a)

process_messages-version :
    (g g' : GossipService) (ms : List GossipMessage) (now bound : ℕ)
    → g.locked ≡ true
    → process_messages g ms now ≡ some g'
    → g.version ≤ bound
    → All (λ m. m.version ≤ bound) ms
    → bound + length ms < 18446744073709551616
    → (g.version + length ms ≤ g'.version) × All (λ m. m.version < g'.version) ms
process_messages-version g g' [] now bound locked e h a small =
    unfold process_messages in (ground arith, tt)
process_messages-version g g' (m ∷ ms) now bound locked e h (p, a) small =
    let (mid, first, later) = process_messages-cons g g' m ms now e in
    let (up, over, low) = advance_small g m.version bound h p (omega arith) in
    let kept =
      dispatch-version m.type (advance g m.version) mid m now (unfold advance in locked) first in
    let rest =
      process_messages-version mid g' ms now (bound + 1)
        (dispatch-locked m.type (advance g m.version) mid m now (unfold advance in locked) first)
        later (omega arith) (All-raised bound (bound + 1) ms (omega arith) a) (omega arith) in
    (omega (arith, rest.0), (omega (arith, rest.0), rest.1))

-- A response that is handled to its end, where its version vector has no domain twice and no version in
-- its messages nor the clock comes near 2 ^ 64: the clock has advanced at least once for each message
-- and stands above every message's version, and the lock is free again. Each entry of the version
-- vector, with 0 for none, is the larger one of the service's and the response's, or the response's
-- alone, which happens only to a domain that a heartbeat of the response names as known.
pub process_gossip_response-version :
    (g g' : GossipService) (resp : GossipResponse) (now bound : ℕ)
    → process_gossip_response g resp now ≡ some g'
    → Distinct resp.version_vector
    → g.version ≤ bound
    → All (λ m. m.version ≤ bound) resp.messages
    → bound + length resp.messages < 18446744073709551616
    → (g.version + length resp.messages ≤ g'.version)
      × All (λ m. m.version < g'.version) resp.messages
      × ((domain : Text)
          → (version_of domain g'.version_vector
              ≡ larger (version_of domain g.version_vector) (version_of domain resp.version_vector))
            ⊎ ((any (names domain) resp.messages ≡ true)
                × (version_of domain g'.version_vector ≡ version_of domain resp.version_vector)))
      × (g'.locked ≡ false)
unfolding process_gossip_response acquire
process_gossip_response-version g g' resp now bound e distinct h a small =
    elim (Bool-cases g.locked) [
      | inl locked ↦ ground (arith, locked)
      | inr free ↦
          elim (Option-cases (process_messages (record g { locked = true }) resp.messages now)) [
            | inl n ↦ ground (arith, free, n)
            | inr (mid, p) ↦
                let r =
                  process_messages-version (record g { locked = true }) mid resp.messages now bound
                    refl p h a small in
                subst
                  (λ (out : GossipService).
                    (g.version + length resp.messages ≤ out.version)
                    × All (λ m. m.version < out.version) resp.messages
                    × ((domain : Text)
                        → (version_of domain out.version_vector
                            ≡ larger (version_of domain g.version_vector)
                                (version_of domain resp.version_vector))
                          ⊎ ((any (names domain) resp.messages ≡ true)
                              × (version_of domain out.version_vector
                                  ≡ version_of domain resp.version_vector)))
                    × (out.locked ≡ false))
                  (some-injective (merged mid) g' (rw (free, p) at e))
                  (
                    r.0,
                    r.1,
                    (λ domain. merged_entry domain mid (
                        process_messages-Noted domain (record g { locked = true }) mid resp.messages
                          now refl p)),
                    refl,
                  )
          ]
    ]
  where
    merged_entry :
        (domain : Text) (mid : GossipService)
        → Noted domain (any (names domain) resp.messages) g.version_vector mid.version_vector
        → (version_of domain (merge_versions mid.version_vector resp.version_vector)
            ≡ larger (version_of domain g.version_vector) (version_of domain resp.version_vector))
          ⊎ ((any (names domain) resp.messages ≡ true)
              × (version_of domain (merge_versions mid.version_vector resp.version_vector)
                  ≡ version_of domain resp.version_vector))
    merged_entry domain mid noted = ground (
      arith,
      noted,
      version_of-merge_versions domain mid.version_vector resp.version_vector distinct,
    )

    merged : GossipService → GossipService
    merged mid =
        release
          (record mid { version_vector = merge_versions mid.version_vector resp.version_vector })

-- A message with the version 2 ^ 64 - 1 sets the clock back to 0.
pub process_gossip_message-version_wraps :
    (g g' : GossipService) (msg : GossipMessage) (now : ℕ)
    → g.locked ≡ true
    → g.version < 18446744073709551616
    → msg.version ≡ 18446744073709551615
    → process_gossip_message g msg now ≡ some g'
    → g'.version ≡ 0
unfolding process_gossip_message
process_gossip_message-version_wraps g g' msg now locked small top e =
    dispatch-version msg.type (advance g msg.version) g' msg now (unfold advance in locked) e
    ∙ (unfold advance in unfold increment in ground arith)
