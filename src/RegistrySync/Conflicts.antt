-- ===== src/RegistrySync/Conflicts.antt =====
-- How src/registry_sync.ts settles two registrations of one name: repeated and reordered updates.
use libeam.Shared.{
  ◌<◌, String, ◌≡◌, sym, ◌∙◌, subst, inl, inr, true, false, List, [], ◌∷◌, none, some, arith,
  Bool-cases, Option-cases,
}
use libeam.Shared.Dict.{lookup, lookup-insert_self}
use libeam.Shared.Text.{str_gt_asym, str_gt_irrefl}
use libeam.VectorClock.{compare, after, concurrent}
use libeam.VectorClock.Order.{compare_iff, compare-flip}
use libeam.RegistrySync.{
  ActorRegistration, RegistrySync, supersedes, handle_register, store, unchanged, register,
  RegistryUpdate, handle_registry_update,
}

-- No registration supersedes itself, so an update that comes twice is ignored the second time.
supersedes_irrefl : (r : ActorRegistration) → supersedes r r ≡ false
unfolding supersedes
supersedes_irrefl r =
    rw
      (
        (compare_iff r.vector_clock r.vector_clock).2.1
            ((λ (le, (k, lt)). omega arith), (λ (le, (k, lt)). omega arith)),
        supersedes,
      )
      (ground (arith, str_gt_irrefl r.node_id))

-- Of two registrations at most one supersedes the other.
pub supersedes_asym : (a b : ActorRegistration) → supersedes a b ≡ true → supersedes b a ≡ false
unfolding supersedes
supersedes_asym a b h =
    ground (arith, compare-flip a.vector_clock b.vector_clock, str_gt_asym a.node_id b.node_id)

handle_register_kept :
    (r e : ActorRegistration) (s : RegistrySync)
    → lookup r.name s.registrations ≡ some e
    → supersedes r e ≡ false
    → handle_register r s ≡ unchanged s
unfolding handle_register
handle_register_kept r e s h k = rw (h, handle_register) (rw k)

stored :
    (r : ActorRegistration) (s : RegistrySync)
    → ((e : ActorRegistration) → lookup r.name s.registrations ≡ some e → supersedes r e ≡ true)
    → lookup r.name (handle_register r s).state.registrations ≡ some r
unfolding handle_register store
stored r s newer = elim (Option-cases (lookup r.name s.registrations)) [
  | inl h ↦ rw (h, handle_register) (lookup-insert_self r.name r s.registrations)
  | inr (e, h) ↦
      rw (h, handle_register) (rw (newer e h) (lookup-insert_self r.name r s.registrations))
]

-- A registration that is received again changes nothing and emits nothing, whatever the registry
-- held before it came the first time.
pub update_repeated :
    (r : ActorRegistration) (s : RegistrySync)
    → let u : RegistryUpdate = record { type = register; registration = r } in
      let once = (handle_registry_update u s).state in
      handle_registry_update u once ≡ unchanged once
unfolding handle_registry_update
update_repeated r s = elim (Option-cases (lookup r.name s.registrations)) [
  | inl h ↦ again (stored r s (λ e k. cc (h, k)))
  | inr (e, h) ↦ elim (Bool-cases (supersedes r e)) [
    | inl newer ↦ again (stored r s (λ e' k. wins e e' h k newer))
    | inr older ↦ rw (handle_register_kept r e s h older) (handle_register_kept r e s h older)
  ]
]
  where
    again :
        lookup r.name (handle_register r s).state.registrations ≡ some r
        → handle_register r (handle_register r s).state ≡ unchanged (handle_register r s).state
    again k = handle_register_kept r r (handle_register r s).state k (supersedes_irrefl r)

    wins :
        (e e' : ActorRegistration)
        → lookup r.name s.registrations ≡ some e
        → lookup r.name s.registrations ≡ some e'
        → supersedes r e ≡ true
        → supersedes r e' ≡ true
    wins e e' h k newer = cc

-- The registry after registrations that come in this order.
pub receive_all : List ActorRegistration → RegistrySync → RegistrySync
receive_all [] s = s
receive_all (r ∷ rs) s =
    receive_all rs (handle_registry_update (record { type = register; registration = r }) s).state

entry_over :
    (a b : ActorRegistration) (s : RegistrySync)
    → a.name ≡ b.name
    → lookup b.name s.registrations ≡ some b
    → supersedes a b ≡ true
    → lookup a.name (handle_register a s).state.registrations ≡ some a
entry_over a b s same h newer = stored a s λ e k. cc (k, h, same, newer)

entry_under :
    (a b : ActorRegistration) (s : RegistrySync)
    → a.name ≡ b.name
    → lookup a.name s.registrations ≡ some a
    → supersedes b a ≡ false
    → lookup a.name (handle_register b s).state.registrations ≡ some a
entry_under a b s same h older =
    rw (handle_register_kept b a s (subst (λ n. lookup n s.registrations ≡ some a) same h) older) h

-- Where one of two registrations of a name supersedes the other, a registry without an entry for
-- the name keeps the same one in whichever order they come.
pub two_converge :
    (a b : ActorRegistration) (s : RegistrySync)
    → a.name ≡ b.name
    → lookup a.name s.registrations ≡ none
    → supersedes a b ≡ true
    → (lookup a.name (receive_all (a ∷ b ∷ []) s).registrations ≡ some a)
      × (lookup a.name (receive_all (b ∷ a ∷ []) s).registrations ≡ some a)
unfolding receive_all handle_registry_update
two_converge a b s same free newer = (
  entry_under a b (handle_register a s).state same (stored a s (λ e k. cc (free, k)))
      (supersedes_asym a b newer),
  entry_over a b (handle_register b s).state same (stored b s (λ e k. cc (free, k, same))) newer,
)

chain :
    (x y z : ActorRegistration) (s : RegistrySync)
    → x.name ≡ y.name
    → y.name ≡ z.name
    → lookup x.name s.registrations ≡ none
    → supersedes y x ≡ true
    → supersedes z y ≡ true
    → lookup z.name (receive_all (x ∷ y ∷ z ∷ []) s).registrations ≡ some z
unfolding receive_all handle_registry_update
chain x y z s xy yz free yx zy =
    entry_over z y (handle_register y (handle_register x s).state).state (sym yz)
      (entry_over y x (handle_register x s).state (sym xy) (stored x s (λ e k. cc (free, k))) yx) zy

-- Three registrations of one name need not converge. Where b is causally after a, c is concurrent
-- with both, and the generations (the nodes' wall clocks) order them b, c, a, three registries
-- without an entry that receive all three, each in another order, keep three different ones.
pub three_diverge :
    (a b c : ActorRegistration) (s : RegistrySync)
    → a.name ≡ b.name
    → b.name ≡ c.name
    → lookup a.name s.registrations ≡ none
    → compare b.vector_clock a.vector_clock ≡ after
    → compare c.vector_clock b.vector_clock ≡ concurrent
    → compare a.vector_clock c.vector_clock ≡ concurrent
    → b.generation < c.generation
    → c.generation < a.generation
    → (lookup a.name (receive_all (a ∷ b ∷ c ∷ []) s).registrations ≡ some c)
      × (lookup a.name (receive_all (b ∷ c ∷ a ∷ []) s).registrations ≡ some a)
      × (lookup a.name (receive_all (c ∷ a ∷ b ∷ []) s).registrations ≡ some b)
unfolding supersedes
three_diverge a b c s ab bc free ba cb ac bg cg = (
  subst (λ n. lookup n (receive_all (a ∷ b ∷ c ∷ []) s).registrations ≡ some c) (sym (ab ∙ bc))
      (chain a b c s ab bc free b_wins c_wins),
  chain b c a s bc (sym (ab ∙ bc)) (subst free_under ab free) c_wins a_wins,
  subst (λ n. lookup n (receive_all (c ∷ a ∷ b ∷ []) s).registrations ≡ some b) (sym ab)
      (chain c a b s (sym (ab ∙ bc)) ab (subst free_under (ab ∙ bc) free) a_wins b_wins),
)
  where
    free_under : String → Type 0
    free_under n = lookup n s.registrations ≡ none

    b_wins : supersedes b a ≡ true
    b_wins = rw (ba, supersedes)

    c_wins : supersedes c b ≡ true
    c_wins = rw (cb, supersedes) (ground arith)

    a_wins : supersedes a c ≡ true
    a_wins = rw (ac, supersedes) (ground arith)
