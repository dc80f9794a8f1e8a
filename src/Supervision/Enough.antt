-- ===== src/Supervision/Enough.antt =====
-- How much fuel a crash needs to pass along all links: one more than there are links.
use libeam.Shared.{
  ℕ, zero, suc, ◌+◌, ◌≤◌, ◌<◌, Bool, true, false, List, [], ◌∷◌, Option, none, some, ◌≡◌, refl, sym,
  subst, ◌∙◌, ap, arith, ◌==◌, if◌then◌else◌, Bool-cases, inl, inr, ◌⊎◌, or_else,
}
use libeam.Shared.Dict.{is_some}
use libeam.Shared.Table.{remove}
use libeam.ActorSystem.{
  ActorRef, Actor, Cause, linked_actor, LinkRef, LinkEntry, Reason, error, killed, RestartRecord,
  RestartKey, System,
}
use libeam.ActorSystem.Watching.{notify_watchers}
use libeam.ActorSystem.Linking.{
  unlink, send_exit_message, abnormal, kind, other_end, pass_exit, notify_link, notify_links,
  notify_link_set, notify_linked_actors, link, link_actors, record_link,
}
use libeam.ActorSystem.Cuts.{Cuts, unlink-Cuts, unlink-none, notify_watchers-Cuts, notify_link-Cuts}
use libeam.Supervision.{
  SupervisionStrategy, restart_actor, stop_actor, SupervisionOptions, can_restart, get_restart_key,
  stop_now, give_up, apply_strategy, set_child_count, parent_of, supervise_child,
  handle_child_crash, root_strategy, handle_root_crash, supervise, handle_crash,
}
use libeam.Supervision.Propagation.{handle_crash-Cuts}

-- The number of links under identifiers below a bound.
abbrev pub links_below : ℕ → System → ℕ
links_below zero s = 0
links_below (suc n) s = (if is_some (s.links n) then 1 else 0) + links_below n s

-- A link stands under its identifier, which is below the bound.
abbrev pub LinksBelow : ℕ → System → Type 0
LinksBelow bound s =
    (i : ℕ) (e : LinkEntry) → s.links i ≡ some e → (e.link_ref.id ≡ i) × (i < bound)

LinksBelow-Cuts : (bound : ℕ) (s t : System) → Cuts s t → LinksBelow bound s → LinksBelow bound t
LinksBelow-Cuts bound s t cuts below i e q = elim (cuts i) [
  | inl n ↦ absurd (cc)
  | inr same ↦ below i e (sym same ∙ q)
]

one_le :
    (o p : Option LinkEntry)
    → (o ≡ none) ⊎ (o ≡ p)
    → (if is_some o then 1 else 0) ≤ (if is_some p then 1 else 0)
one_le none p h = omega arith
one_le (some e) none (inl h) = absurd (cc)
one_le (some e) none (inr h) = absurd (cc)
one_le (some e) (some f) h = omega arith

links_below-Cuts : (n : ℕ) (s t : System) → Cuts s t → links_below n t ≤ links_below n s
links_below-Cuts zero s t cuts = omega arith
links_below-Cuts (suc n) s t cuts =
    omega (arith, one_le (t.links n) (s.links n) (cuts n), links_below-Cuts n s t cuts)

links_below-lost :
    (n i : ℕ) (s t : System) (e : LinkEntry)
    → Cuts s t
    → i < n
    → s.links i ≡ some e
    → t.links i ≡ none
    → links_below n t < links_below n s
links_below-lost zero i s t e cuts l q d = absurd (no l)
  where
    no : i < 0 → ⊥
    no h = omega arith
links_below-lost (suc n) i s t e cuts l q d = elim (Bool-cases (i == n)) [
  | inl b ↦
      (let same : i ≡ n = ground (arith, b) in
        let had : is_some (s.links n) ≡ true =
          ap (λ (j : ℕ). is_some (s.links j)) (sym same) ∙ ap is_some q in
        let lost : is_some (t.links n) ≡ false =
          ap (λ (j : ℕ). is_some (t.links j)) (sym same) ∙ ap is_some d in
        ground (arith, had, lost, links_below-Cuts n s t cuts))
  | inr b ↦ omega (
    arith,
    one_le (t.links n) (s.links n) (cuts n),
    links_below-lost n i s t e cuts (ground (arith, b)) q d,
  )
]

-- Two ways to handle the crash of a linked actor that agree wherever fewer than `most` links are
-- left.
module _ (bound most : ℕ) (crash crash' : ActorRef → Cause → System → System)
    (cuts : (r : ActorRef) (c : Cause) (s : System) → Cuts s (crash r c s))
    (agree : (r : ActorRef) (c : Cause) (s : System)
      → LinksBelow bound s
      → links_below bound s < most
      → crash r c s ≡ crash' r c s) where
  pass_exit-agrees :
      (r : LinkRef) (ref other : ActorRef) (reason : Reason) (o : Option Actor) (s : System)
      → LinksBelow bound s
      → links_below bound s < most
      → pass_exit crash r ref other reason o s ≡ pass_exit crash' r ref other reason o s
  pass_exit-agrees r ref other reason none s below few = refl
  pass_exit-agrees r ref other reason (some a) s below few = go a.trap_exit (abnormal reason)
    where
      cause : Cause
      cause = linked_actor ref.id (kind reason)

      go :
          (x y : Bool)
          → (if x
              then send_exit_message (some r) ref other.id reason s
              else (if y then crash other cause s else s))
            ≡ (if x
                then send_exit_message (some r) ref other.id reason s
                else (if y then crash' other cause s else s))
      go true y = refl
      go false true = agree other cause s below few
      go false false = refl

  notify_link-agrees :
      (ref : ActorRef) (reason : Reason) (i : ℕ) (s : System)
      → LinksBelow bound s
      → links_below bound s ≤ most
      → notify_link crash ref reason (s.links i) s ≡ notify_link crash' ref reason (s.links i) s
  notify_link-agrees ref reason i s below few = go (s.links i) refl
    where
      go :
          (o : Option LinkEntry)
          → s.links i ≡ o
          → notify_link crash ref reason o s ≡ notify_link crash' ref reason o s
      go none q = refl
      go (some e) q =
          let cut = unlink e.link_ref s in
          let (own, small) = below i e q in
          let gone : cut.links i ≡ none = ap cut.links (sym own) ∙ unlink-none e.link_ref s in
          let cutting = unlink-Cuts e.link_ref s in
          pass_exit-agrees e.link_ref ref (other_end ref e) reason (cut.actors (other_end ref e).id)
            cut (LinksBelow-Cuts bound s cut cutting below)
            (omega (arith, links_below-lost bound i s cut e cutting small q gone))

  notify_links-agrees :
      (ref : ActorRef) (reason : Reason) (ids : List ℕ) (s : System)
      → LinksBelow bound s
      → links_below bound s ≤ most
      → notify_links crash ref reason ids s ≡ notify_links crash' ref reason ids s
  unfolding notify_links
  notify_links-agrees ref reason [] s below few = refl
  notify_links-agrees ref reason (i ∷ ids) s below few =
      let told = notify_link crash ref reason (s.links i) s in
      let cutting = notify_link-Cuts crash cuts ref reason (s.links i) s in
      notify_links-agrees ref reason ids told (LinksBelow-Cuts bound s told cutting below)
        (omega (arith, links_below-Cuts bound s told cutting))
      ∙ ap (notify_links crash' ref reason ids) (notify_link-agrees ref reason i s below few)

  give_up-agrees :
      (ref : ActorRef) (reason : Reason) (s : System)
      → LinksBelow bound s
      → links_below bound s ≤ most
      → give_up crash ref reason s ≡ give_up crash' ref reason s
  unfolding notify_linked_actors
  give_up-agrees ref reason s below few =
      let told = notify_watchers ref reason s in
      let cutting = notify_watchers-Cuts ref reason s in
      ap (stop_now ref) (
        go (told.linked_with ref.id) told (LinksBelow-Cuts bound s told cutting below)
          (omega (arith, links_below-Cuts bound s told cutting)))
    where
      go :
          (o : Option (List ℕ)) (t : System)
          → LinksBelow bound t
          → links_below bound t ≤ most
          → notify_link_set crash ref reason o t ≡ notify_link_set crash' ref reason o t
      go none t b f = refl
      go (some ids) t b f = notify_links-agrees ref reason ids t b f

  supervise-agrees :
      (now : ℕ) (options : SupervisionOptions) (ref : ActorRef) (cause : Cause)
      (p : Option ActorRef) (s : System)
      → LinksBelow bound s
      → links_below bound s ≤ most
      → supervise now crash options ref cause p s ≡ supervise now crash' options ref cause p s
  unfolding handle_child_crash handle_root_crash
  supervise-agrees now options ref cause p s below few = go p
    where
      decided :
          (a : Actor) (key : RestartKey) (answer : Option RestartRecord × Bool)
          → (if answer.1
              then apply_strategy a.actor_class.child_supervision.strategy ref a
                  (set_child_count key answer.0 s)
              else give_up crash ref killed (set_child_count key answer.0 s))
            ≡ (if answer.1
                then apply_strategy a.actor_class.child_supervision.strategy ref a
                    (set_child_count key answer.0 s)
                else give_up crash' ref killed (set_child_count key answer.0 s))
      decided a key (r, true) = refl
      decided a key (r, false) =
          give_up-agrees ref killed (set_child_count key r s) below
            (omega (arith, links_below-Cuts bound s (set_child_count key r s) (λ i. inr refl)))

      child :
          (parent : ActorRef) (o : Option Actor)
          → supervise_child now crash ref o (get_restart_key ref.id parent.id s) s
            ≡ supervise_child now crash' ref o (get_restart_key ref.id parent.id s) s
      child parent none = refl
      child parent (some a) =
          let sup = a.actor_class.child_supervision in
          let key = get_restart_key ref.id parent.id s in
          decided a key
            (can_restart now sup.max_restarts sup.period_ms (s.child_restart_counts key))

      tallied : Option RestartRecord → System
      tallied r = record s {
        restart_counts = λ asked. if ref.id == asked then r else s.restart_counts asked;
      }

      strategy :
          (t : SupervisionStrategy) (r : Option RestartRecord)
          → root_strategy crash t ref cause (tallied r)
            ≡ root_strategy crash' t ref cause (tallied r)
      strategy restart_actor r = refl
      strategy stop_actor r =
          give_up-agrees ref (error cause) (tallied r) below
            (omega (arith, links_below-Cuts bound s (tallied r) (λ i. inr refl)))

      dropped : System → System
      dropped t = record t { restart_counts = remove ref.id t.restart_counts }

      root :
          (answer : Option RestartRecord × Bool)
          → (if answer.1
              then root_strategy crash options.strategy ref cause (tallied answer.0)
              else dropped (give_up crash ref killed s))
            ≡ (if answer.1
                then root_strategy crash' options.strategy ref cause (tallied answer.0)
                else dropped (give_up crash' ref killed s))
      root (r, true) = strategy options.strategy r
      root (r, false) = ap dropped (give_up-agrees ref killed s below few)

      go :
          (q : Option ActorRef)
          → supervise now crash options ref cause q s ≡ supervise now crash' options ref cause q s
      go none =
          root (can_restart now options.max_restarts options.period_ms (s.restart_counts ref.id))
      go (some parent) = child parent (s.actors parent.id)

-- The crash of an actor is handled in finitely many steps, however it passes along links: any two
-- amounts of fuel that are more than the number of links give the same state, where a link stands
-- under its identifier.
pub handle_crash-terminates :
    (now : ℕ) (options : SupervisionOptions) (bound fuel fuel' : ℕ) (ref : ActorRef) (cause : Cause)
    (s : System)
    → LinksBelow bound s
    → links_below bound s < fuel
    → links_below bound s < fuel'
    → handle_crash now options fuel ref cause s ≡ handle_crash now options fuel' ref cause s
unfolding handle_crash
handle_crash-terminates now options bound zero fuel' ref cause s below l l' = absurd (no l)
  where
    no : links_below bound s < 0 → ⊥
    no h = omega arith
handle_crash-terminates now options bound (suc fuel) zero ref cause s below l l' = absurd (no l')
  where
    no : links_below bound s < 0 → ⊥
    no h = omega arith
handle_crash-terminates now options bound (suc fuel) (suc fuel') ref cause s below l l' =
    supervise-agrees bound (links_below bound s) (handle_crash now options fuel)
      (handle_crash now options fuel') (λ r c t. handle_crash-Cuts now options fuel r c t)
      (λ r c t b few.
        handle_crash-terminates now options bound fuel fuel' r c t b (omega arith) (omega arith))
      now options ref cause (parent_of (s.actor_metadata ref.id)) s below (omega arith)

-- A link that is made stands under the next identifier.
pub link-LinksBelow :
    (actor1 actor2 : ActorRef) (s t : System) (r : LinkRef)
    → link actor1 actor2 s ≡ some (t, r)
    → LinksBelow s.next_id s
    → LinksBelow t.next_id t
unfolding link
link-LinksBelow actor1 actor2 s t r made below = go (s.actors actor1.id) (s.actors actor2.id) made
  where
    ref : LinkRef
    ref = record { id = s.next_id; actor1_id = actor1.id; actor2_id = actor2.id }

    recorded : LinksBelow (s.next_id + 1) (record_link ref actor1 actor2 s)
    recorded i e q = elim (Bool-cases (s.next_id == i)) [
      | inl b ↦ fresh i e b (ground (arith, b, q))
      | inr b ↦ (let (own, small) = below i e (ground (arith, b, q)) in (own, omega arith))
    ]
      where
        entry : LinkEntry
        entry = record { link_ref = ref; actor1_ref = actor1; actor2_ref = actor2 }

        fresh :
            (i : ℕ) (e : LinkEntry)
            → (s.next_id == i) ≡ true
            → some entry ≡ some e
            → (e.link_ref.id ≡ i) × (i < s.next_id + 1)
        fresh i e b q = (
          ap (λ (o : Option LinkEntry). (or_else o entry).link_ref.id) (sym q) ∙ ground (arith, b),
          ground (arith, b),
        )

    go :
        (o p : Option Actor)
        → link_actors actor1 actor2 o p s ≡ some (t, r)
        → LinksBelow t.next_id t
    go none p q = absurd (cc)
    go (some a) none q = absurd (cc)
    go (some a) (some b) q =
        subst (λ (u : System). LinksBelow u.next_id u)
          (ap (λ (x : Option (System × LinkRef)). (or_else x (t, r)).0) q) recorded
