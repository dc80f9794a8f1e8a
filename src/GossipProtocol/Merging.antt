-- ===== src/GossipProtocol/Merging.antt =====
-- What one report of a peer does to the table of src/gossip_protocol.ts.
use libeam.Shared.{
  ℕ, String, ◌≡◌, ◌∙◌, ap, inl, inr, Bool, true, false, ◌&&◌, ◌||◌, [], Option, none, some, arith,
  ltb, ◌==◌, str_eq, eq_iff, eq_refl, if◌then◌else◌, Bool-cases, Option-cases,
}
use libeam.Shared.Dict.{lookup-insert}
use libeam.GossipProtocol.{
  PeerState, GossipProtocol, peer, find_peer, says_leaving, adopt, merge_new, merge_known,
  merge_peer,
}

-- A report is newer than an entry by its generation, or by its heartbeat in the same generation.
abbrev pub newer : PeerState → PeerState → Bool
newer a b =
    ltb b.generation a.generation || (a.generation == b.generation && ltb b.heartbeat a.heartbeat)

abbrev pub stamped : ℕ → PeerState → PeerState
stamped now p = record p { last_updated = now }

-- What the table holds of a peer after a report: a peer it knows keeps the newer of the two, and a
-- peer it does not know is taken in unless it is leaving.
abbrev pub chosen : ℕ → PeerState → Option PeerState → Option PeerState
chosen now a none = if says_leaving a.status then none else some (stamped now a)
chosen now a (some p) = if newer a p then some (stamped now a) else some p

find-adopt :
    (now : ℕ) (a : PeerState) (s : GossipProtocol) (j : String)
    → find_peer j (adopt now a s) ≡ (if str_eq a.id j then some (stamped now a) else find_peer j s)
unfolding find_peer adopt
find-adopt now a s j =
    ground (arith, lookup-insert a.id j (peer (record a { last_updated = now })) s.peers)

find-merge_new :
    (now : ℕ) (a : PeerState) (s : GossipProtocol) (j : String)
    → find_peer a.id s ≡ none
    → find_peer j (merge_new now a s).0
      ≡ (if str_eq a.id j then chosen now a none else find_peer j s)
unfolding merge_new
find-merge_new now a s j h = ground (arith, find-adopt now a s j, eq_iff a.id j)

find-merge_known :
    (now : ℕ) (a p : PeerState) (s : GossipProtocol) (j : String)
    → find_peer a.id s ≡ some p
    → find_peer j (merge_known now a p s).0
      ≡ (if str_eq a.id j then chosen now a (some p) else find_peer j s)
unfolding merge_known
find-merge_known now a p s j h = ground (arith, find-adopt now a s j, eq_iff a.id j)

merge_peer_new :
    (now : ℕ) (a : PeerState) (s : GossipProtocol)
    → find_peer a.id s ≡ none
    → merge_peer now a s ≡ merge_new now a s
unfolding merge_peer
merge_peer_new now a s h = rw (h, merge_peer)

merge_peer_known :
    (now : ℕ) (a p : PeerState) (s : GossipProtocol)
    → find_peer a.id s ≡ some p
    → merge_peer now a s ≡ merge_known now a p s
unfolding merge_peer
merge_peer_known now a p s h = rw (h, merge_peer)

-- One report changes the entry of its own peer only, to the one chosen.
pub find-merge_peer :
    (now : ℕ) (a : PeerState) (s : GossipProtocol) (j : String)
    → find_peer j (merge_peer now a s).0
      ≡ (if str_eq a.id j then chosen now a (find_peer j s) else find_peer j s)
find-merge_peer now a s j = elim (Option-cases (find_peer a.id s)) [
  | inl h ↦
      rw (merge_peer_new now a s h) (find-merge_new now a s j h ∙ ground (arith, eq_iff a.id j))
  | inr (p, h) ↦
      rw (merge_peer_known now a p s h)
        (find-merge_known now a p s j h ∙ ground (arith, eq_iff a.id j))
]

merge_known_old :
    (now : ℕ) (a p : PeerState) (s : GossipProtocol)
    → newer a p ≡ false
    → merge_known now a p s ≡ (s, [])
unfolding merge_known
merge_known_old now a p s h = ground arith

not_newer_self : (now : ℕ) (a : PeerState) → newer a (stamped now a) ≡ false
not_newer_self now a = ground arith

merge_new_leaving :
    (now : ℕ) (a : PeerState) (s : GossipProtocol)
    → says_leaving a.status ≡ true
    → merge_new now a s ≡ (s, [])
unfolding merge_new
merge_new_leaving now a s h = rw h

-- A report of a peer that comes a second time changes nothing and emits nothing, at any time.
pub merge_peer_repeated :
    (now later : ℕ) (a : PeerState) (s : GossipProtocol)
    → merge_peer later a (merge_peer now a s).0 ≡ ((merge_peer now a s).0, [])
merge_peer_repeated now later a s = elim (Option-cases (find_peer a.id s)) [
  | inl h ↦ elim (Bool-cases (says_leaving a.status)) [
    | inl l ↦
        let same : (merge_peer now a s).0 ≡ s =
          ap (λ r. r.0) (merge_peer_new now a s h ∙ merge_new_leaving now a s l) in
        rw same (merge_peer_new later a s h ∙ merge_new_leaving later a s l)
    | inr l ↦ settled (stamped now a) (found h l) (not_newer_self now a)
  ]
  | inr (p, h) ↦ elim (Bool-cases (newer a p)) [
    | inl n ↦ settled (stamped now a) (replaced p h n) (not_newer_self now a)
    | inr n ↦ settled p (kept p h n) n
  ]
]
  where
    after_once : find_peer a.id (merge_peer now a s).0 ≡ chosen now a (find_peer a.id s)
    after_once = ground (arith, find-merge_peer now a s a.id, eq_refl a.id)

    found :
        find_peer a.id s ≡ none
        → says_leaving a.status ≡ false
        → find_peer a.id (merge_peer now a s).0 ≡ some (stamped now a)
    found h l = ground (arith, after_once)

    replaced :
        (p : PeerState)
        → find_peer a.id s ≡ some p
        → newer a p ≡ true
        → find_peer a.id (merge_peer now a s).0 ≡ some (stamped now a)
    replaced p h n = ground (arith, after_once)

    kept :
        (p : PeerState)
        → find_peer a.id s ≡ some p
        → newer a p ≡ false
        → find_peer a.id (merge_peer now a s).0 ≡ some p
    kept p h n = ground (arith, after_once)

    settled :
        (p : PeerState)
        → find_peer a.id (merge_peer now a s).0 ≡ some p
        → newer a p ≡ false
        → merge_peer later a (merge_peer now a s).0 ≡ ((merge_peer now a s).0, [])
    settled p h n =
        merge_peer_known later a p (merge_peer now a s).0 h
        ∙ merge_known_old later a p (merge_peer now a s).0 n

-- Two reports of one peer, of different versions and neither of them leaving, leave the same entry
-- in whichever order they come, whatever the table held.
pub reports_commute :
    (now : ℕ) (a b : PeerState) (s : GossipProtocol)
    → a.id ≡ b.id
    → says_leaving a.status ≡ false
    → says_leaving b.status ≡ false
    → newer a b ≡ true
    → find_peer a.id (merge_peer now a (merge_peer now b s).0).0
      ≡ find_peer a.id (merge_peer now b (merge_peer now a s).0).0
reports_commute now a b s same la lb n = ground (
  arith,
  find-merge_peer now a (merge_peer now b s).0 a.id,
  find-merge_peer now b s a.id,
  find-merge_peer now b (merge_peer now a s).0 a.id,
  find-merge_peer now a s a.id,
  eq_refl a.id,
  eq_iff b.id a.id,
)

-- A peer's last report, that it is leaving, is lost on a node that does not know the peer and gets
-- an older report afterwards: the node then lists the peer by the older report. In the order of
-- the reports it lists it as leaving.
pub leaving_overtaken :
    (now : ℕ) (last older : PeerState) (s : GossipProtocol)
    → last.id ≡ older.id
    → find_peer last.id s ≡ none
    → says_leaving last.status ≡ true
    → says_leaving older.status ≡ false
    → newer last older ≡ true
    → (find_peer last.id (merge_peer now older (merge_peer now last s).0).0
        ≡ some (stamped now older))
      × (find_peer last.id (merge_peer now last (merge_peer now older s).0).0
          ≡ some (stamped now last))
leaving_overtaken now last older s same free ll lo n = ground (
  arith,
  find-merge_peer now older (merge_peer now last s).0 last.id,
  find-merge_peer now last s last.id,
  find-merge_peer now last (merge_peer now older s).0 last.id,
  find-merge_peer now older s last.id,
  eq_refl last.id,
  eq_iff older.id last.id,
)
