-- ===== src/GossipProtocol/Versions.antt =====
-- The versions that the table of src/gossip_protocol.ts holds never go back.
use libeam.Shared.{
  ℕ, ◌≤◌, ◌<◌, String, ◌≡◌, refl, ◌⊎◌, inl, inr, Bool, true, false, not, ◌||◌, List, [], ◌∷◌, ◌++◌,
  Option, none, some, arith, str_eq, eq_refl, Bool-cases,
}
use libeam.GossipProtocol.{
  PeerState, GossipProtocol, GossipMessage, find_peer, says_leaving, merge_peer, merge_peers,
  handle_gossip_message, compatible,
}
use libeam.GossipProtocol.Merging.{newer, chosen, find-merge_peer}

-- The first of two reports is of the same version as the second or of an earlier one.
abbrev pub NotNewer : PeerState → PeerState → Type 0
NotNewer p q =
    (p.generation < q.generation) ⊎ ((p.generation ≡ q.generation) × (p.heartbeat ≤ q.heartbeat))

-- A table holds a peer at least in this version.
abbrev pub HoldsAtLeast : PeerState → Option PeerState → Type 0
HoldsAtLeast p none = ⊥
HoldsAtLeast p (some q) = NotNewer p q

NotNewer-trans : (p q r : PeerState) → NotNewer p q → NotNewer q r → NotNewer p r
NotNewer-trans p q r h k = ground arith

HoldsAtLeast-trans :
    (p q : PeerState) (o : Option PeerState) → NotNewer p q → HoldsAtLeast q o → HoldsAtLeast p o
HoldsAtLeast-trans p q none h k = k
HoldsAtLeast-trans p q (some r) h k = NotNewer-trans p q r h k

chosen_keeps :
    (now : ℕ) (a p : PeerState) (o : Option PeerState)
    → HoldsAtLeast p o
    → HoldsAtLeast p (chosen now a o)
chosen_keeps now a p none h = absurd h
chosen_keeps now a p (some q) h = elim (Bool-cases (newer a q)) [
  | inl n ↦ rw n (ground arith)
  | inr n ↦ rw n h
]

merge_peer_keeps :
    (now : ℕ) (a p : PeerState) (s : GossipProtocol) (j : String)
    → HoldsAtLeast p (find_peer j s)
    → HoldsAtLeast p (find_peer j (merge_peer now a s).0)
merge_peer_keeps now a p s j h = elim (Bool-cases (str_eq a.id j)) [
  | inl e ↦ rw (find-merge_peer now a s j, e) (chosen_keeps now a p (find_peer j s) h)
  | inr e ↦ rw (find-merge_peer now a s j, e) h
]

merge_peers_keeps :
    (now : ℕ) (ps : List PeerState) (p : PeerState) (s : GossipProtocol) (j : String)
    → HoldsAtLeast p (find_peer j s)
    → HoldsAtLeast p (find_peer j (merge_peers now ps s).0)
unfolding merge_peers
merge_peers_keeps now [] p s j h = h
merge_peers_keeps now (a ∷ ps) p s j h =
    merge_peers_keeps now ps p (merge_peer now a s).0 j (merge_peer_keeps now a p s j h)

-- The warning flag is not part of the table.
warned : Bool → GossipProtocol → GossipProtocol
warned b s = record s { has_warned_open_mode = b }

find_peer-warned :
    (b : Bool) (s : GossipProtocol) (j : String) → find_peer j (warned b s) ≡ find_peer j s
unfolding find_peer warned
find_peer-warned b s j = refl

-- No message makes a node forget a peer or go back to an older version of it: what the table holds
-- under an id afterwards is of the same version or of a later one.
pub message_keeps_versions :
    (authenticated : Bool) (now : ℕ) (m : GossipMessage) (s : GossipProtocol) (j : String)
    (p : PeerState)
    → find_peer j s ≡ some p
    → HoldsAtLeast p (find_peer j (handle_gossip_message authenticated now m s).0)
unfolding handle_gossip_message warned
message_keeps_versions authenticated now m s j p h = elim (Bool-cases (compatible m.version)) [
  | inl c ↦ rw c (
      merge_peers_keeps now m.peers p (warned (s.has_warned_open_mode || not authenticated) s) j (
        rw (find_peer-warned (s.has_warned_open_mode || not authenticated) s j, h)
          (inr (refl, omega arith))))
  | inr c ↦ rw (c, h) (inr (refl, omega arith))
]

chosen_brings :
    (now : ℕ) (a : PeerState) (o : Option PeerState)
    → says_leaving a.status ≡ false
    → HoldsAtLeast a (chosen now a o)
chosen_brings now a none l = rw l (inr (refl, omega arith))
chosen_brings now a (some p) l = elim (Bool-cases (newer a p)) [
  | inl n ↦ rw n (inr (refl, omega arith))
  | inr n ↦ rw n (ground arith)
]

merge_peers_brings :
    (now : ℕ) (front back : List PeerState) (a : PeerState) (s : GossipProtocol)
    → says_leaving a.status ≡ false
    → HoldsAtLeast a (find_peer a.id (merge_peers now (front ++ a ∷ back) s).0)
unfolding merge_peers
merge_peers_brings now [] back a s l =
    merge_peers_keeps now back a (merge_peer now a s).0 a.id
      (rw (find-merge_peer now a s a.id, eq_refl a.id) (chosen_brings now a (find_peer a.id s) l))
merge_peers_brings now (p ∷ front) back a s l =
    merge_peers_brings now front back a (merge_peer now p s).0 l

-- After a message of a compatible version, the table holds every peer that the message reports and
-- that is not leaving, wherever in the message it stands, at least in the version reported.
pub message_brings_versions :
    (authenticated : Bool) (now : ℕ) (m : GossipMessage) (s : GossipProtocol)
    (front back : List PeerState) (a : PeerState)
    → compatible m.version ≡ true
    → m.peers ≡ front ++ a ∷ back
    → says_leaving a.status ≡ false
    → HoldsAtLeast a (find_peer a.id (handle_gossip_message authenticated now m s).0)
unfolding handle_gossip_message warned
message_brings_versions authenticated now m s front back a c e l =
    rw (c, e)
      (merge_peers_brings now front back a (warned (s.has_warned_open_mode || not authenticated) s)
        l)
