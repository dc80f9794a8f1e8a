-- ===== src/ActorSystem/Stopping.antt =====
-- src/actor_system.ts: how actors are stopped, with their children or alone, and restarted.
use libeam.Shared.{ℕ, zero, suc, String, List, [], ◌∷◌, Option, none, some, ◌==◌, if◌then◌else◌}
use libeam.Shared.Table.{remove, change}
use libeam.ActorSystem.{
  ActorRef, Cause, normal, Actor, ActorMetadata, System, unregister, terminate, leave_all,
  same_object, given, emit, spawn, spawn_child,
}
use libeam.ActorSystem.Watching.{unwatch_all, notify_watchers}
use libeam.ActorSystem.Linking.{unlink_all, notify_linked_actors}

abbrev pub without_object : ActorRef → List ActorRef → List ActorRef
without_object ref [] = []
without_object ref (r ∷ refs) =
    if same_object r ref then without_object ref refs else (r ∷ without_object ref refs)

-- `findIndex` and `splice`: the first with the identifier is taken out.
abbrev pub without_first : ℕ → List ActorRef → List ActorRef
without_first id [] = []
without_first id (r ∷ refs) = if r.id == id then refs else (r ∷ without_first id refs)

-- The set of children forgets the object, the order of children the identifier.
abbrev pub disown : ActorRef → Actor → Actor
disown ref a = record a {
  children = without_object ref a.children;
  child_order = without_first ref.id a.child_order;
}

abbrev pub disown_from : ActorRef → Option ActorRef → System → System
disown_from ref none s = s
disown_from ref (some parent) s = record s { actors = change parent.id (disown ref) s.actors }

abbrev pub leave_parent_of : ActorRef → Option ActorMetadata → System → System
leave_parent_of ref none s = s
leave_parent_of ref (some m) s = disown_from ref m.parent s

unfoldable pub leave_parent : ActorRef → System → System
leave_parent ref s = leave_parent_of ref (s.actor_metadata ref.id) s

abbrev pub unregister_name : Option String → System → System
unregister_name none s = s
unregister_name (some name) s = emit (unregister name) s

-- The name is given up, the actor's own `terminate` runs, and the actor's records are deleted.
unfoldable pub remove_actor : ActorRef → System → System
remove_actor ref s =
    let ended =
      emit (leave_all ref.id) (emit (terminate ref.id) (unregister_name (given ref.name) s)) in
    record ended {
      actors = remove ref.id ended.actors;
      actor_metadata = remove ref.id ended.actor_metadata;
    }

-- The object that a variable holds, as it is now.
abbrev pub current : Actor → Option Actor → Actor
current a none = a
current a (some b) = b

-- A crash does not come of the reason `normal`.
abbrev pub no_crash : ActorRef → Cause → System → System
no_crash ref cause s = s

-- What `stop` does after the children have been stopped.
unfoldable pub finish_stop : ActorRef → Actor → System → System
unfolding leave_parent unwatch_all notify_watchers notify_linked_actors remove_actor
finish_stop ref actor s =
    let alone = leave_parent ref s in
    let unwatched = unwatch_all (current actor (alone.actors ref.id)).watches alone in
    let told = notify_watchers ref normal unwatched in
    remove_actor ref (notify_linked_actors no_crash ref normal told)

-- A loop over references.
abbrev pub for_each : (ActorRef → System → System) → List ActorRef → System → System
for_each run [] s = s
for_each run (r ∷ refs) s = for_each run refs (run r s)

-- The fuel bounds the depth of the tree of children.
unfoldable pub stop : ℕ → ActorRef → System → System
unfolding finish_stop
stop zero ref s = s
stop (suc fuel) ref s = elim (s.actors ref.id) [
  | none ↦ s
  | some actor ↦ finish_stop ref actor (for_each (stop fuel) actor.children s)
]

-- `stopSingle`, as a restart calls it: without word to the watchers.
unfoldable pub stop_single : ActorRef → System → System
unfolding leave_parent unwatch_all unlink_all remove_actor
stop_single ref s = elim (s.actors ref.id) [
  | none ↦ s
  | some actor ↦
      (let alone = leave_parent ref s in
        let unwatched = unwatch_all (current actor (alone.actors ref.id)).watches alone in
        remove_actor ref (unlink_all (current actor (unwatched.actors ref.id)).links unwatched))
]

abbrev pub respawn_under : Option ActorRef → ActorMetadata → System → Option (System × ActorRef)
respawn_under none m s = spawn m.actor_class m.options s
respawn_under (some parent) m s = spawn_child parent m.actor_class m.options s

-- The answer `null`, the exception of `spawn` or `spawnChild`, or the new reference.
pub data Restarted : Type 0 where
  not_found : Restarted
  threw : Restarted
  restarted : ActorRef → Restarted

abbrev pub outcome : System → Option (System × ActorRef) → System × Restarted
outcome s none = (s, threw)
outcome s (some (spawned, ref)) = (spawned, restarted ref)

abbrev pub restart_with : ActorRef → Option ActorMetadata → System → System × Restarted
restart_with ref none s = (s, not_found)
restart_with ref (some m) s =
    let stopped = stop_single ref s in outcome stopped (respawn_under m.parent m stopped)

unfoldable pub restart : ActorRef → System → System × Restarted
restart ref s = restart_with ref (s.actor_metadata ref.id) s
