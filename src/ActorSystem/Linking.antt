-- ===== src/ActorSystem/Linking.antt =====
-- src/actor_system.ts: links between the actors of a node, and how an exit passes along them.
use libeam.Shared.{
  ℕ, ◌+◌, String, Bool, true, false, List, [], ◌∷◌, ◌++◌, Option, none, some, ◌==◌, str_eq,
  if◌then◌else◌,
}
use libeam.Shared.Table.{put, remove, change, join_set, leave_set}
use libeam.ActorSystem.{
  ActorRef, LinkRef, Cause, linked_actor, exit_signal, Reason, normal, error, killed, Actor,
  LinkEntry, System, exit, emit,
}

abbrev pub without_link : ℕ → List LinkRef → List LinkRef
without_link id [] = []
without_link id (r ∷ refs) = if r.id == id then without_link id refs else (r ∷ without_link id refs)

-- `links.set`: a link of an actor with itself stands once.
abbrev pub add_link : LinkRef → Actor → Actor
add_link ref a = record a { links = without_link ref.id a.links ++ (ref ∷ []) }

abbrev pub record_link : LinkRef → ActorRef → ActorRef → System → System
record_link ref actor1 actor2 s = record s {
  next_id = s.next_id + 1;
  links = put ref.id (record { link_ref = ref; actor1_ref = actor1; actor2_ref = actor2 }) s.links;
  linked_with = join_set actor2.id ref.id (join_set actor1.id ref.id s.linked_with);
  actors = change actor2.id (add_link ref) (change actor1.id (add_link ref) s.actors);
}

abbrev pub link_actors :
    ActorRef → ActorRef → Option Actor → Option Actor → System → Option (System × LinkRef)
link_actors actor1 actor2 none other s = none
link_actors actor1 actor2 (some _) none s = none
link_actors actor1 actor2 (some _) (some _) s =
    let ref : LinkRef = record { id = s.next_id; actor1_id = actor1.id; actor2_id = actor2.id } in
    some (record_link ref actor1 actor2 s, ref)

-- `none` is the exception for an actor that is not there.
unfoldable pub link : ActorRef → ActorRef → System → Option (System × LinkRef)
link actor1 actor2 s = link_actors actor1 actor2 (s.actors actor1.id) (s.actors actor2.id) s

abbrev pub drop_link : LinkRef → Actor → Actor
drop_link ref a = record a { links = without_link ref.id a.links }

abbrev pub unlink_entry : LinkRef → Option LinkEntry → System → System
unlink_entry ref none s = s
unlink_entry ref (some _) s = record s {
  links = remove ref.id s.links;
  linked_with = leave_set ref.actor2_id ref.id (leave_set ref.actor1_id ref.id s.linked_with);
  actors = change ref.actor2_id (drop_link ref) (change ref.actor1_id (drop_link ref) s.actors);
}

unfoldable pub unlink : LinkRef → System → System
unlink ref s = unlink_entry ref (s.links ref.id) s

unfoldable pub unlink_all : List LinkRef → System → System
unfolding unlink
unlink_all [] s = s
unlink_all (r ∷ refs) s = unlink_all refs (unlink r s)

abbrev pub kind : Reason → String
kind normal = "normal"
kind (error cause) = "error"
kind killed = "killed"

abbrev pub abnormal : Reason → Bool
abnormal normal = false
abnormal (error cause) = true
abnormal killed = true

unfoldable pub send_exit_message : Option LinkRef → ActorRef → ℕ → Reason → System → System
send_exit_message ref terminated target reason s = emit (exit target ref terminated reason) s

abbrev pub other_end : ActorRef → LinkEntry → ActorRef
other_end ref e = if e.actor1_ref.id == ref.id then e.actor2_ref else e.actor1_ref

-- What `handleCrash` of the supervisor does with an actor is the argument `crash`.
module _ (crash : ActorRef → Cause → System → System) where
  abbrev pub pass_exit : LinkRef → ActorRef → ActorRef → Reason → Option Actor → System → System
  pass_exit ref terminated other reason none s = s
  pass_exit ref terminated other reason (some a) s =
      if a.trap_exit
      then send_exit_message (some ref) terminated other.id reason s
      else (if abnormal reason then crash other (linked_actor terminated.id (kind reason)) s else s)

  -- The link is removed before the exit passes along it.
  abbrev pub notify_link : ActorRef → Reason → Option LinkEntry → System → System
  notify_link ref reason none s = s
  notify_link ref reason (some e) s =
      let other = other_end ref e in
      let cut = unlink e.link_ref s in
      pass_exit e.link_ref ref other reason (cut.actors other.id) cut

  unfoldable pub notify_links : ActorRef → Reason → List ℕ → System → System
  unfolding unlink send_exit_message
  notify_links ref reason [] s = s
  notify_links ref reason (i ∷ ids) s =
      notify_links ref reason ids (notify_link ref reason (s.links i) s)

  abbrev pub notify_link_set : ActorRef → Reason → Option (List ℕ) → System → System
  notify_link_set ref reason none s = s
  notify_link_set ref reason (some ids) s = notify_links ref reason ids s

  -- The linked actors on the same node.
  unfoldable pub notify_linked_actors : ActorRef → Reason → System → System
  unfolding notify_links
  notify_linked_actors ref reason s = notify_link_set ref reason (s.linked_with ref.id) s

-- An exit signal: `normal` does nothing, `kill` stops the actor, another reason is a message to an
-- actor that traps exits and the crash of one that does not.
module _ (crash : ActorRef → Cause → System → System) (kill : ActorRef → System → System) where
  abbrev pub signal : ActorRef → ActorRef → String → Option Actor → System → System
  signal sender target reason none s = s
  signal sender target reason (some a) s =
      if str_eq reason "normal"
      then s
      else (if str_eq reason "kill"
          then kill target s
          else (if a.trap_exit
              then send_exit_message none sender target.id killed s
              else crash target (exit_signal sender.id reason) s))

  unfoldable pub send_exit : ActorRef → ActorRef → String → System → System
  unfolding send_exit_message
  send_exit sender target reason s = signal sender target reason (s.actors target.id) s
