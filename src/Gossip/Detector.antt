-- ===== src/Gossip/Detector.antt =====
-- What the failure detector makes of a peer.
use collective.Prelude.{
  ℕ, ◌-◌, ◌≤◌, ◌≡◌, refl, false, ◌&&◌, ◌||◌, none, some, [], ◌∷◌, ◌++◌, arith, if◌then◌else◌, ltb,
  leb,
}
use collective.Text.{Text}
use collective.Dict.{Dict, lookup}
use collective.Gossip.{
  GossipService, PeerState, is_alive, is_dead, acquire, judge, judge_all, lost, detect_failures,
}

-- After a check a peer is alive if it was, and was heard of in time; dead if it was, or has been
-- silent too long.
abbrev pub IsJudged : ℕ → ℕ → ℕ → PeerState → PeerState → Type 0
IsJudged suspect_timeout dead_timeout now before after =
    (after.address ≡ before.address)
    × (after.last_seen ≡ before.last_seen)
    × (is_alive after.status
        ≡ (is_alive before.status && leb (now - before.last_seen) suspect_timeout))
    × (is_dead after.status ≡ (is_dead before.status || ltb dead_timeout (now - before.last_seen)))

judge-IsJudged :
    (suspect_timeout dead_timeout now : ℕ) (peer : PeerState)
    → suspect_timeout ≤ dead_timeout
    → IsJudged suspect_timeout dead_timeout now peer (judge suspect_timeout dead_timeout now peer)
unfolding judge
judge-IsJudged suspect_timeout dead_timeout now peer h =
    (ground arith, ground arith, ground arith, ground arith)

lookup-judge_all :
    (suspect_timeout dead_timeout now : ℕ) (domain : Text) (peers : Dict PeerState)
    → lookup domain (judge_all suspect_timeout dead_timeout now peers)
      ≡ (elim (lookup domain peers) [
        | none ↦ none
        | some peer ↦ some (judge suspect_timeout dead_timeout now peer)
      ])
unfolding judge_all lookup
lookup-judge_all suspect_timeout dead_timeout now domain [] = refl
lookup-judge_all suspect_timeout dead_timeout now domain ((d, p) ∷ peers) =
    ground (arith, lookup-judge_all suspect_timeout dead_timeout now domain peers)

-- Where the lock is free, `detect_failures` returns with it free and the same peers in the table:
-- alive are those that were and have been silent no longer than the first timeout; dead are those
-- that were and those that have been silent longer than the second.
pub detect_failures-IsJudged :
    (g : GossipService) (suspect_timeout dead_timeout now : ℕ)
    → g.locked ≡ false
    → suspect_timeout ≤ dead_timeout
    → (g' : GossipService) × (detect_failures g suspect_timeout dead_timeout now ≡ some g')
      × (g'.locked ≡ false)
      × ((domain : Text) → lookup domain g.peers ≡ none → lookup domain g'.peers ≡ none)
      × ((domain : Text) (peer : PeerState)
          → lookup domain g.peers ≡ some peer
          → (after : PeerState) × (lookup domain g'.peers ≡ some after)
            × IsJudged suspect_timeout dead_timeout now peer after)
unfolding detect_failures acquire
detect_failures-IsJudged g suspect_timeout dead_timeout now free h = (
  record g {
    locked = false;
    peers = judge_all suspect_timeout dead_timeout now g.peers;
    called = if g.on_peer_leave then g.called ++ lost dead_timeout now g.peers else g.called;
  },
  rw free refl,
  refl,
  λ domain e. ground (arith, lookup-judge_all suspect_timeout dead_timeout now domain g.peers),
  λ domain peer e. (
    judge suspect_timeout dead_timeout now peer,
    ground (arith, lookup-judge_all suspect_timeout dead_timeout now domain g.peers),
    judge-IsJudged suspect_timeout dead_timeout now peer h,
  ),
)
