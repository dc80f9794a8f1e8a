-- ===== src/ActorSystem/Watching.antt =====
-- src/actor_system.ts: watches between the actors of a node, and the DOWN messages that end them.
use libeam.Shared.{ℕ, ◌+◌, List, [], ◌∷◌, ◌++◌, Option, none, some, ◌==◌, if◌then◌else◌}
use libeam.Shared.Dict.{is_some}
use libeam.Shared.Table.{put, remove, change, join_set, leave_set}
use libeam.ActorSystem.{ActorRef, WatchRef, Reason, Actor, WatchEntry, System, down, normal, emit}

abbrev pub send_down_to : Option Actor → WatchRef → ActorRef → Reason → System → System
send_down_to none ref watched reason s = s
send_down_to (some _) ref watched reason s = emit (down ref.watcher_id ref watched reason) s

unfoldable pub send_down_message : WatchRef → ActorRef → Reason → System → System
send_down_message ref watched reason s = send_down_to (s.actors ref.watcher_id) ref watched reason s

abbrev pub fresh_watch : ActorRef → ActorRef → System → WatchRef
fresh_watch watcher watched s = record {
  id = s.next_id;
  watcher_id = watcher.id;
  watched_id = watched.id;
}

abbrev pub record_watch : WatchRef → ActorRef → ActorRef → System → System
record_watch ref watcher watched s = record s {
  next_id = s.next_id + 1;
  watches =
      put ref.id (record { watch_ref = ref; watcher_ref = watcher; watched_ref = watched })
        s.watches;
  watched_by = join_set watched.id ref.id s.watched_by;
  actors = change watcher.id (λ a. record a { watches = a.watches ++ (ref ∷ []) }) s.actors;
}

-- An actor that is not there is reported at once.
unfoldable pub watch : ActorRef → ActorRef → System → System × WatchRef
unfolding send_down_message
watch watcher watched s =
    let ref = fresh_watch watcher watched s in
    let watching = record_watch ref watcher watched s in
    if is_some (watching.actors watched.id)
    then (watching, ref)
    else (send_down_message ref watched normal watching, ref)

abbrev pub without_watch : ℕ → List WatchRef → List WatchRef
without_watch id [] = []
without_watch id (r ∷ refs) =
    if r.id == id then without_watch id refs else (r ∷ without_watch id refs)

abbrev pub unwatch_entry : WatchRef → Option WatchEntry → System → System
unwatch_entry ref none s = s
unwatch_entry ref (some _) s = record s {
  watches = remove ref.id s.watches;
  watched_by = leave_set ref.watched_id ref.id s.watched_by;
  actors =
      change ref.watcher_id (λ a. record a { watches = without_watch ref.id a.watches }) s.actors;
}

unfoldable pub unwatch : WatchRef → System → System
unwatch ref s = unwatch_entry ref (s.watches ref.id) s

unfoldable pub unwatch_all : List WatchRef → System → System
unfolding unwatch
unwatch_all [] s = s
unwatch_all (r ∷ refs) s = unwatch_all refs (unwatch r s)

abbrev pub notify_entry : ActorRef → Reason → Option WatchEntry → System → System
notify_entry ref reason none s = s
notify_entry ref reason (some e) s =
    unwatch e.watch_ref (send_down_message e.watch_ref ref reason s)

unfoldable pub notify_each : ActorRef → Reason → List ℕ → System → System
unfolding unwatch send_down_message
notify_each ref reason [] s = s
notify_each ref reason (i ∷ ids) s =
    notify_each ref reason ids (notify_entry ref reason (s.watches i) s)

-- The watchers on the same node.
abbrev pub notify_set : ActorRef → Reason → Option (List ℕ) → System → System
notify_set ref reason none s = s
notify_set ref reason (some ids) s = notify_each ref reason ids s

unfoldable pub notify_watchers : ActorRef → Reason → System → System
unfolding notify_each
notify_watchers ref reason s = notify_set ref reason (s.watched_by ref.id) s
