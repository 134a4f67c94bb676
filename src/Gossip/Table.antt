-- ===== src/Gossip/Table.antt =====
-- What the methods keep of the table of peers.
use collective.Prelude.{
  ℕ, ◌≡◌, refl, sym, ap, ◌∙◌, Bool, Bool-cases, Option-cases, inl, inr, Option, none, some, List,
  [], ◌∷◌, arith,
}
use collective.Prelude.Options.{◌>>=◌}
use collective.Text.{Text}
use collective.Dict.{Dict, lookup, insert, erase}
use collective.Dict.Keys.{
  Lacks, Each, Distinct, Each-insert, Each-erase, Each-lookup, insert-Distinct, erase-Distinct,
}
use collective.Address.{FederatedAddress}
use collective.Gossip.{
  GossipService, PeerState, PeerStatus, PeerEndpoint, acquire, add_peer, remove_peer,
  update_peer_status, judge, judge_all, detect_failures, increment_version, set_callbacks,
}

abbrev Owns : Text → PeerState → Type 0
Owns domain peer = domain ≡ peer.address.domain

-- Every peer stands once in the table, under the domain of its address.
abbrev pub IsIndexed : Dict PeerState → Type 0
IsIndexed peers = Each Owns peers × Distinct peers

-- What an outcome that is there satisfies.
abbrev pub Holds : (GossipService → Type 0) → Option GossipService → Type 0
Holds P none = Unit
Holds P (some g) = P g

abbrev pub HasIndex : GossipService → Type 0
HasIndex g = IsIndexed g.peers

pub bind-Holds :
    (P : GossipService → Type 0) (first : Option GossipService)
    (next : GossipService → Option GossipService)
    → Holds P first
    → ((g : GossipService) → P g → Holds P (next g))
    → Holds P (first >>= next)
bind-Holds P none next h k = tt
bind-Holds P (some g) next h k = k g h

pub insert-IsIndexed :
    (domain : Text) (peer : PeerState) (peers : Dict PeerState)
    → domain ≡ peer.address.domain
    → IsIndexed peers
    → IsIndexed (insert domain peer peers)
insert-IsIndexed domain peer peers e (h, d) =
    (Each-insert Owns domain peer peers e h, insert-Distinct domain peer peers d)

erase-IsIndexed :
    (domain : Text) (peers : Dict PeerState) → IsIndexed peers → IsIndexed (erase domain peers)
erase-IsIndexed domain peers (h, d) =
    (Each-erase Owns domain peers h, erase-Distinct domain peers d)

-- An entry is replaced by one of the same address.
pub replace-IsIndexed :
    (domain : Text) (peer peer' : PeerState) (peers : Dict PeerState)
    → lookup domain peers ≡ some peer
    → peer'.address ≡ peer.address
    → IsIndexed peers
    → IsIndexed (insert domain peer' peers)
replace-IsIndexed domain peer peer' peers e f (h, d) =
    insert-IsIndexed domain peer' peers
      (Each-lookup Owns domain peer peers h e ∙ sym (ap (λ a. a.domain) f)) (h, d)

pub acquire-HasIndex : (g : GossipService) → HasIndex g → Holds HasIndex (acquire g)
unfolding acquire
acquire-HasIndex g h = elim (Bool-cases g.locked) [ inl e ↦ rw e tt | inr e ↦ rw e h ]

pub add_peer-HasIndex :
    (g : GossipService) (address : FederatedAddress) (endpoints : List PeerEndpoint) (now : ℕ)
    → HasIndex g
    → Holds HasIndex (add_peer g address endpoints now)
unfolding add_peer increment_version
add_peer-HasIndex g address endpoints now h =
    bind-Holds HasIndex (acquire g) _ (acquire-HasIndex g h)
      (λ g' h'. insert-IsIndexed address.domain _ g'.peers refl h')

pub remove_peer-HasIndex :
    (g : GossipService) (domain : Text) → HasIndex g → Holds HasIndex (remove_peer g domain)
unfolding remove_peer increment_version
remove_peer-HasIndex g domain h =
    bind-Holds HasIndex (acquire g) _ (acquire-HasIndex g h)
      (λ g' h'. erase-IsIndexed domain g'.peers h')

pub update_peer_status-HasIndex :
    (g : GossipService) (domain : Text) (status : PeerStatus) (now : ℕ)
    → HasIndex g
    → Holds HasIndex (update_peer_status g domain status now)
unfolding update_peer_status
update_peer_status-HasIndex g domain status now h =
    bind-Holds HasIndex (acquire g) _ (acquire-HasIndex g h) (λ g' h'.
      elim (Option-cases (lookup domain g'.peers)) [
        | inl e ↦ rw e h'
        | inr (peer, e) ↦ rw e (replace-IsIndexed domain peer _ g'.peers e refl h')
      ])

pub set_callbacks-HasIndex :
    (g : GossipService) (on_join on_leave : Bool)
    → HasIndex g
    → Holds HasIndex (set_callbacks g on_join on_leave)
unfolding set_callbacks
set_callbacks-HasIndex g on_join on_leave h =
    bind-Holds HasIndex (acquire g) _ (acquire-HasIndex g h) (λ g' h'. h')

Lacks-judge_all :
    (i : Text) (s d now : ℕ) (peers : Dict PeerState)
    → Lacks i peers
    → Lacks i (judge_all s d now peers)
unfolding judge_all
Lacks-judge_all i s d now [] h = tt
Lacks-judge_all i s d now ((k, p) ∷ peers) h = (h.0, Lacks-judge_all i s d now peers h.1)

judge-address : (s d now : ℕ) (peer : PeerState) → (judge s d now peer).address ≡ peer.address
unfolding judge
judge-address s d now peer = ground arith

judge_all-IsIndexed :
    (s d now : ℕ) (peers : Dict PeerState) → IsIndexed peers → IsIndexed (judge_all s d now peers)
unfolding judge_all
judge_all-IsIndexed s d now [] h = (tt, tt)
judge_all-IsIndexed s d now ((k, p) ∷ peers) ((e, h), (l, n)) =
    let rest = judge_all-IsIndexed s d now peers (h, n) in
    (
      (e ∙ sym (ap (λ a. a.domain) (judge-address s d now p)), rest.0),
      (Lacks-judge_all k s d now peers l, rest.1),
    )

pub detect_failures-HasIndex :
    (g : GossipService) (s d now : ℕ) → HasIndex g → Holds HasIndex (detect_failures g s d now)
unfolding detect_failures
detect_failures-HasIndex g s d now h =
    bind-Holds HasIndex (acquire g) _ (acquire-HasIndex g h)
      (λ g' h'. judge_all-IsIndexed s d now g'.peers h')
