-- ===== src/Gossip/Versions.antt =====
-- pkg/federation/gossip.go: the version vector under the messages and the merge of a response.
use collective.Prelude.{
  ℕ, ◌≡◌, refl, ap, ◌∙◌, subst, Result, ok, err, ◌⊎◌, not, ◌&&◌, none, inl, inr, Bool, true, false,
  Bool-cases, Option-cases, ◌||◌, some, List, [], ◌∷◌, arith, any, ltb, if◌then◌else◌,
}
use mathlib.Core.Option.{some-injective}
use collective.Address.{FederatedAddress, AddressError, parse_address}
use collective.Text.{Text, same, same_iff}
use collective.Dict.{Dict, is_some, lookup, insert, lookup-insert}
use collective.Dict.Keys.{Distinct, lookup-Lacks}
use collective.Gossip.{GossipService}
use collective.Gossip.Messages.{
  GossipType, gossip_join, gossip_leave, gossip_update, gossip_heartbeat, gossip_sync, other_type,
  GossipMessage, Payload, heartbeat_payload, handle_join_message, handle_leave_message,
  handle_heartbeat_message, join_payload, leave_payload, sync_payload, other_payload, join_peer,
  refresh_peer, note_unknown, advance, dispatch, process_messages, process_gossip_message,
  merge_versions, version_of,
}
use collective.Gossip.Lock.{remove_peer_blocks, dispatch-locked}

abbrev pub larger : ℕ → ℕ → ℕ
larger m n = if ltb m n then n else m

version_of-insert :
    (d domain : Text) (v : ℕ) (vector : Dict ℕ)
    → version_of domain (if ltb (version_of d vector) v then insert d v vector else vector)
      ≡ (if same d domain then larger (version_of domain vector) v else version_of domain vector)
version_of-insert d domain v vector = elim (Bool-cases (ltb (version_of d vector) v)) [
  | inl e ↦ rw e (elim (Bool-cases (same d domain)) [
    | inl q ↦ ground (
      arith,
      q,
      e,
      lookup-insert d domain v vector,
      ap (λ k. version_of k vector) ((same_iff d domain).0 q),
    )
    | inr q ↦ ground (arith, q, lookup-insert d domain v vector)
  ])
  | inr e ↦ rw e (elim (Bool-cases (same d domain)) [
    | inl q ↦ ground (arith, q, e, ap (λ k. version_of k vector) ((same_iff d domain).0 q))
    | inr q ↦ ground (arith, q)
  ])
]

-- Each entry of the merge is the larger one of the two.
pub version_of-merge_versions :
    (domain : Text) (vector versions : Dict ℕ)
    → Distinct versions
    → version_of domain (merge_versions vector versions)
      ≡ larger (version_of domain vector) (version_of domain versions)
unfolding merge_versions lookup
version_of-merge_versions domain vector [] h = ground arith
version_of-merge_versions domain vector ((d, v) ∷ versions) h =
    version_of-merge_versions domain
      (if ltb (version_of d vector) v then insert d v vector else vector) versions h.1
    ∙ elim (Bool-cases (same d domain)) [
      | inl e ↦
          let unlisted : lookup domain versions ≡ none =
            subst (λ (k : Text). lookup k versions ≡ none) ((same_iff d domain).0 e)
              (lookup-Lacks d versions h.0) in
          ground (arith, e, version_of-insert d domain v vector, unlisted)
      | inr e ↦ ground (arith, e, version_of-insert d domain v vector)
    ]

-- A heartbeat that names the domain among the peers it knows.
abbrev pub names : Text → GossipMessage → Bool
names domain msg = elim msg.payload [
  | join_payload endpoints ↦ false
  | leave_payload left ↦ false
  | heartbeat_payload known versions ↦ any (λ d. same d domain) known
  | sync_payload versions ↦ false
  | other_payload ↦ false
]

-- The domain's entry is as it was, or the domain was named and its entry is 0.
abbrev pub Noted : Text → Bool → Dict ℕ → Dict ℕ → Type 0
Noted domain named vector vector' =
    (version_of domain vector' ≡ version_of domain vector)
    ⊎ ((named ≡ true) × (version_of domain vector' ≡ 0))

Noted-then :
    (domain : Text) (first later : Bool) (u v w : Dict ℕ)
    → Noted domain first u v
    → Noted domain later v w
    → Noted domain (first || later) u w
Noted-then domain first later u v w p q = ground (arith, p, q)

-- One domain that a heartbeat names.
note_one-Noted :
    (domain d : Text) (unknown : Bool) (vector : Dict ℕ)
    → Noted domain (same d domain) vector (if unknown then insert d 0 vector else vector)
note_one-Noted domain d unknown vector =
    ground (arith, lookup-insert d domain 0 vector, same_iff d domain)

note_unknown-Noted :
    (domain : Text) (g : GossipService) (domains : List Text)
    → Noted domain
        (any (λ d. same d domain) domains)
        g.version_vector
        (note_unknown g domains).version_vector
unfolding note_unknown
note_unknown-Noted domain g [] = inl refl
note_unknown-Noted domain g (d ∷ ds) =
    let unknown = not (is_some (lookup d g.peers)) && not (same d g.local_domain) in
    let noted = (if unknown then insert d 0 g.version_vector else g.version_vector) in
    Noted-then domain (same d domain) (any (λ k. same k domain) ds) g.version_vector noted
      (note_unknown (record g { version_vector = noted }) ds).version_vector
      (note_one-Noted domain d unknown g.version_vector)
      (note_unknown-Noted domain (record g { version_vector = noted }) ds)

refresh_peer_vector :
    (g : GossipService) (msg : GossipMessage) (now : ℕ) (addr : FederatedAddress)
    → (refresh_peer g msg now addr).version_vector ≡ g.version_vector
unfolding refresh_peer
refresh_peer_vector g msg now addr = ground arith

heartbeat-Noted :
    (domain : Text) (g : GossipService) (msg : GossipMessage) (now : ℕ)
    → Noted domain
        (names domain msg)
        g.version_vector
        (handle_heartbeat_message g msg now).version_vector
unfolding handle_heartbeat_message refresh_peer
heartbeat-Noted domain g msg now = at_payload msg.payload refl
  where
    at_payload :
        (payload : Payload)
        → msg.payload ≡ payload
        → Noted domain
            (names domain msg)
            g.version_vector
            (handle_heartbeat_message g msg now).version_vector
    at_payload (join_payload endpoints) e = ground (arith, e)
    at_payload (leave_payload left) e = ground (arith, e)
    at_payload (sync_payload versions) e = ground (arith, e)
    at_payload other_payload e = ground (arith, e)
    at_payload (heartbeat_payload known versions) e =
        at_address known versions e (parse_address msg.source_address) refl
      where
        at_address :
            (known : List Text) (versions : Dict ℕ)
            → msg.payload ≡ heartbeat_payload known versions
            → (r : Result AddressError FederatedAddress) → parse_address msg.source_address ≡ r
            → Noted domain
                (names domain msg)
                g.version_vector
                (handle_heartbeat_message g msg now).version_vector
        at_address known versions e (err x) p = rw (handle_heartbeat_message, e, p) (inl refl)
        at_address known versions e (ok addr) p =
            rw (handle_heartbeat_message, e, p)
              (subst
                (λ (v : Dict ℕ).
                  Noted domain (any (λ d. same d domain) known) v
                    (note_unknown (refresh_peer g msg now addr) known).version_vector)
                (refresh_peer_vector g msg now addr)
                (note_unknown-Noted domain (refresh_peer g msg now addr) known))

dispatch-Noted :
    (domain : Text) (t : GossipType) (g g' : GossipService) (msg : GossipMessage) (now : ℕ)
    → g.locked ≡ true
    → dispatch t g msg now ≡ some g'
    → Noted domain (names domain msg) g.version_vector g'.version_vector
unfolding dispatch handle_join_message handle_leave_message handle_heartbeat_message join_peer
    refresh_peer
dispatch-Noted domain gossip_join g g' msg now h e = ground (arith, e)
dispatch-Noted domain gossip_leave g g' msg now h e = grind (arith, e, remove_peer_blocks)
dispatch-Noted domain gossip_update g g' msg now h e = ground (arith, e)
dispatch-Noted domain gossip_heartbeat g g' msg now h e =
    subst
      (λ (out : GossipService). Noted domain (names domain msg) g.version_vector out.version_vector)
      (some-injective _ g' e) (heartbeat-Noted domain g msg now)
dispatch-Noted domain gossip_sync g g' msg now h e = ground (arith, e)
dispatch-Noted domain other_type g g' msg now h e = ground (arith, e)

pub process_messages-cons :
    (g g' : GossipService) (m : GossipMessage) (ms : List GossipMessage) (now : ℕ)
    → process_messages g (m ∷ ms) now ≡ some g'
    → (mid : GossipService) × (dispatch m.type (advance g m.version) m now ≡ some mid)
      × (process_messages mid ms now ≡ some g')
unfolding process_messages process_gossip_message
process_messages-cons g g' m ms now e =
    elim (Option-cases (dispatch m.type (advance g m.version) m now)) [
      | inl n ↦ ground (arith, n)
      | inr (mid, p) ↦ (mid, p, ground (arith, p))
    ]

-- What the messages of a response leave of an entry.
pub process_messages-Noted :
    (domain : Text) (g g' : GossipService) (ms : List GossipMessage) (now : ℕ)
    → g.locked ≡ true
    → process_messages g ms now ≡ some g'
    → Noted domain (any (names domain) ms) g.version_vector g'.version_vector
unfolding advance
process_messages-Noted domain g g' [] now locked e = unfold process_messages in ground (arith, e)
process_messages-Noted domain g g' (m ∷ ms) now locked e =
    let (mid, first, later) = process_messages-cons g g' m ms now e in
    Noted-then domain (names domain m) (any (names domain) ms) g.version_vector mid.version_vector
      g'.version_vector (dispatch-Noted domain m.type (advance g m.version) mid m now locked first)
      (process_messages-Noted domain mid g' ms now
        (dispatch-locked m.type (advance g m.version) mid m now locked first) later)
