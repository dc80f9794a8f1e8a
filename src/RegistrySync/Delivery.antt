-- ===== src/RegistrySync/Delivery.antt =====
-- What the updates that src/registry_sync.ts publishes do to a peer that receives them.
use libeam.Shared.{
  ℕ, String, ◌≡◌, sym, subst, ◌∙◌, true, List, [], ◌∷◌, none, some, inl, inr, arith, eq_refl,
  Option-cases,
}
use libeam.Shared.Dict.{lookup, lookup-insert_self, lookup-delete}
use libeam.VectorClock.{compare, after, increment}
use libeam.RegistrySync.{
  ActorRegistration, RegistryUpdate, RegistrySync, register_actor, unregister_actor,
  unregister_existing, handle_registry_update, handle_register, handle_unregister, supersedes,
  store, Event, actor_registered, actor_updated,
}
use libeam.RegistrySync.Invariant.{IsSound, change_newer}

-- A peer receives updates in the order in which they were published.
pub deliver : List RegistryUpdate → RegistrySync → RegistrySync
deliver [] s = s
deliver (u ∷ us) s = deliver us (handle_registry_update u s).state

lookup-store :
    (reg : ActorRegistration) (event : Event) (p : RegistrySync)
    → lookup reg.name (store reg event p).state.registrations ≡ some reg
unfolding store
lookup-store reg event p = lookup-insert_self reg.name reg p.registrations

-- A registration that nothing stands against, or that is newer, is stored.
handle_register_fresh :
    (reg : ActorRegistration) (p : RegistrySync)
    → lookup reg.name p.registrations ≡ none
    → lookup reg.name (handle_register reg p).state.registrations ≡ some reg
unfolding handle_register
handle_register_fresh reg p e = rw (e, handle_register) (lookup-store reg (actor_registered reg) p)

handle_register_newer :
    (reg existing : ActorRegistration) (p : RegistrySync)
    → lookup reg.name p.registrations ≡ some existing
    → compare reg.vector_clock existing.vector_clock ≡ after
    → lookup reg.name (handle_register reg p).state.registrations ≡ some reg
unfolding handle_register
handle_register_newer reg existing p e c =
    rw (e, handle_register) (rw wins (lookup-store reg (actor_updated reg) p))
  where
    wins : supersedes reg existing ≡ true
    wins = rw (c, supersedes)

handle_unregister_newer :
    (reg existing : ActorRegistration) (p : RegistrySync)
    → lookup reg.name p.registrations ≡ some existing
    → compare reg.vector_clock existing.vector_clock ≡ after
    → lookup reg.name (handle_unregister reg p).state.registrations ≡ none
unfolding handle_unregister
handle_unregister_newer reg existing p e c =
    rw (e, handle_unregister)
      (rw c (ground (arith, lookup-delete reg.name reg.name p.registrations, eq_refl reg.name)))

-- A peer that has the same entry under a name, or none like the registering node, has the new
-- registration once it has received what `register` published.
pub register-deliver :
    (name node_id actor_id : String) (now : ℕ) (s p : RegistrySync)
    → IsSound s
    → lookup name p.registrations ≡ lookup name s.registrations
    → let out = register_actor name node_id actor_id now s in
      lookup name (deliver out.published p).registrations ≡ lookup name out.state.registrations
unfolding register_actor deliver handle_registry_update
register-deliver name node_id actor_id now s p sound agree =
    elim (Option-cases (lookup name s.registrations)) [
      | inl e ↦
          handle_register_fresh _ p (agree ∙ e) ∙ sym (lookup-insert_self name _ s.registrations)
      | inr (existing, e) ↦
          handle_register_newer _ existing p (agree ∙ e) (change_newer name s existing sound e)
          ∙ sym (lookup-insert_self name _ s.registrations)
    ]

unregister_existing-deliver :
    (name : String) (s p : RegistrySync) (existing : ActorRegistration)
    → IsSound s
    → lookup name s.registrations ≡ some existing
    → lookup name p.registrations ≡ some existing
    → (lookup name (deliver (unregister_existing name existing s).published p).registrations ≡ none)
      × (lookup name (unregister_existing name existing s).state.registrations ≡ none)
unfolding unregister_existing deliver handle_registry_update
unregister_existing-deliver name s p existing sound e e' = (
  subst
      (λ n.
        lookup n (deliver (unregister_existing name existing s).published p).registrations ≡ none)
      own
      (handle_unregister_newer
        (record existing { vector_clock = increment s.local_clock s.node_id }) existing p
        (subst (λ n. lookup n p.registrations ≡ some existing) (sym own) e')
        (change_newer name s existing sound e)),
  ground (arith, lookup-delete name name s.registrations, eq_refl name),
)
  where
    own : existing.name ≡ name
    own = (sound.known name existing e).0

-- A peer that has the same entry as the unregistering node has none once it has received what
-- `unregister` published, and neither has the node; where there is no entry nothing is published
-- and nothing changes.
pub unregister-deliver :
    (name : String) (s p : RegistrySync)
    → IsSound s
    → lookup name p.registrations ≡ lookup name s.registrations
    → let out = unregister_actor name s in
      (lookup name (deliver out.published p).registrations ≡ none)
      × (lookup name out.state.registrations ≡ none)
unfolding unregister_actor
unregister-deliver name s p sound agree = elim (Option-cases (lookup name s.registrations)) [
  | inl e ↦ rw (e, unregister_actor) ((unfold deliver in agree ∙ e), e)
  | inr (existing, e) ↦
      rw (e, unregister_actor) (unregister_existing-deliver name s p existing sound e (agree ∙ e))
]
