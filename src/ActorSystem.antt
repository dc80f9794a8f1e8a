-- ===== src/ActorSystem.antt =====
-- src/actor.ts and src/actor_system.ts: the actors of one node, and how they are spawned. An
-- identifier that `uuidv4` gives is the next of a counter, and an object whose identity matters,
-- an `ActorRef`, holds a number that tells it from the others. What an actor is sent, and what
-- the system asks of the registry, the process groups and the actors' own code, is in the log,
-- the latest first. `await` returns at once: an operation ends before the next one starts.
pub mod Watching
pub mod Linking
pub mod Stopping
pub mod Frame
pub mod Tree
pub mod Leaving
pub mod Removal
pub mod Nesting
pub mod Watches
pub mod WatchSets
pub mod Answers
pub mod Cuts
use libeam.Shared.{
  ℕ, ◌+◌, String, Bool, true, false, ◌&&◌, List, [], ◌∷◌, ◌++◌, Option, none, some, ◌==◌, str_eq,
  if◌then◌else◌,
}
use libeam.Shared.Table.{Table, nothing, put, change}

pub record ActorRef : Type 0 where
  pub handle : ℕ
  pub id : ℕ
  pub name : Option String

pub record WatchRef : Type 0 where
  pub id : ℕ
  pub watcher_id : ℕ
  pub watched_id : ℕ

pub record LinkRef : Type 0 where
  pub id : ℕ
  pub actor1_id : ℕ
  pub actor2_id : ℕ

-- The error of a crash: what the actor's code threw, the exit of a linked actor with its kind,
-- or an exit signal with its text.
pub data Cause : Type 0 where
  thrown : String → Cause
  linked_actor : ℕ → String → Cause
  exit_signal : ℕ → String → Cause

pub data Reason : Type 0 where
  normal : Reason
  error : Cause → Reason
  killed : Reason

pub data Strategy : Type 0 where
  one_for_one : Strategy
  one_for_all : Strategy
  rest_for_one : Strategy

pub record ChildSupervisionOptions : Type 0 where
  pub strategy : Strategy
  pub max_restarts : ℕ
  pub period_ms : ℕ

abbrev pub default_child_supervision : ChildSupervisionOptions
default_child_supervision = record { strategy = one_for_one; max_restarts = 3; period_ms = 5000 }

-- An actor's class: its name, and what its `childSupervision` answers.
pub record ActorClass : Type 0 where
  pub class_name : String
  pub child_supervision : ChildSupervisionOptions

-- `args` is the text that `JSON.stringify` makes of the arguments.
pub record SpawnOptions : Type 0 where
  pub name : Option String
  pub args : Option String

pub record Actor : Type 0 where
  pub self : ActorRef
  pub actor_class : ActorClass
  pub parent : Option ActorRef
  pub children : List ActorRef
  pub child_order : List ActorRef
  pub watches : List WatchRef
  pub links : List LinkRef
  pub trap_exit : Bool

pub record ActorMetadata : Type 0 where
  pub actor_class : ActorClass
  pub options : SpawnOptions
  pub parent : Option ActorRef

pub record WatchEntry : Type 0 where
  pub watch_ref : WatchRef
  pub watcher_ref : ActorRef
  pub watched_ref : ActorRef

pub record LinkEntry : Type 0 where
  pub link_ref : LinkRef
  pub actor1_ref : ActorRef
  pub actor2_ref : ActorRef

pub data Event : Type 0 where
  down : ℕ → WatchRef → ActorRef → Reason → Event
  exit : ℕ → Option LinkRef → ActorRef → Reason → Event
  register : String → ℕ → Event
  init : ℕ → Option String → Event
  unregister : String → Event
  terminate : ℕ → Event
  leave_all : ℕ → Event

pub record RestartRecord : Type 0 where
  pub count : ℕ
  pub timestamp : ℕ

-- The key `${parentId}:${childKey}` of the child supervisor: the child's name or arguments, as
-- texts, or its identifier.
pub data ChildKey : Type 0 where
  words : String → ChildKey
  instance_id : ℕ → ChildKey

pub record RestartKey : Type 0 where
  pub parent_id : ℕ
  pub child_key : ChildKey

pub record System : Type 0 where
  pub next_id : ℕ
  pub closing : Bool
  pub actors : Table Actor
  pub actor_metadata : Table ActorMetadata
  pub watches : Table WatchEntry
  pub watched_by : Table (List ℕ)
  pub links : Table LinkEntry
  pub linked_with : Table (List ℕ)
  pub restart_counts : Table RestartRecord
  pub child_restart_counts : RestartKey → Option RestartRecord
  pub log : List Event

-- Two variables that hold the same object.
abbrev pub same_object : ActorRef → ActorRef → Bool
same_object r q = (r.handle == q.handle) && (r.id == q.id)

-- A name that is there and is not the empty text, which is what `if (name)` asks.
abbrev pub given : Option String → Option String
given none = none
given (some name) = if str_eq name "" then none else some name

abbrev pub emit : Event → System → System
emit e s = record s { log = e ∷ s.log }

abbrev pub register_name : Option String → ℕ → System → System
register_name none id s = s
register_name (some name) id s = emit (register name id) s

abbrev pub new_actor : ActorRef → ActorClass → Option ActorRef → Actor
new_actor self actor_class parent = record {
  self = self;
  actor_class = actor_class;
  parent = parent;
  children = [];
  child_order = [];
  watches = [];
  links = [];
  trap_exit = false;
}

abbrev pub fresh_ref : SpawnOptions → System → ActorRef
fresh_ref options s = record { handle = s.next_id; id = s.next_id; name = options.name }

-- What `spawn` and `spawnChild` do alike: the actor and its metadata are stored.
abbrev pub store_actor : ActorRef → ActorClass → SpawnOptions → Option ActorRef → System → System
store_actor ref actor_class options parent s = record s {
  next_id = s.next_id + 1;
  actors = put ref.id (new_actor ref actor_class parent) s.actors;
  actor_metadata =
      put ref.id (record { actor_class = actor_class; options = options; parent = parent })
        s.actor_metadata;
}

abbrev pub start_actor : ActorRef → SpawnOptions → System → System
start_actor ref options s =
    emit (init ref.id options.args) (register_name (given options.name) ref.id s)

-- `none` is the exception of a system that shuts down or drains.
unfoldable pub spawn : ActorClass → SpawnOptions → System → Option (System × ActorRef)
spawn actor_class options s =
    if s.closing
    then none
    else (let ref = fresh_ref options s in
        some (start_actor ref options (store_actor ref actor_class options none s), ref))

abbrev pub adopt : ActorRef → Actor → Actor
adopt ref a = record a {
  children = a.children ++ (ref ∷ []);
  child_order = a.child_order ++ (ref ∷ []);
}

abbrev pub spawn_under :
    ActorRef → ActorClass → SpawnOptions → Option Actor → System → Option (System × ActorRef)
spawn_under parent actor_class options none s = none
spawn_under parent actor_class options (some _) s =
    let ref = fresh_ref options s in
    let stored = store_actor ref actor_class options (some parent) s in
    let adopted : System = record stored { actors = change parent.id (adopt ref) stored.actors } in
    some (start_actor ref options adopted, ref)

-- `none` is the exception of a system that shuts down, or of a parent that is not there.
unfoldable pub spawn_child :
    ActorRef → ActorClass → SpawnOptions → System → Option (System × ActorRef)
spawn_child parent actor_class options s =
    if s.closing then none else spawn_under parent actor_class options (s.actors parent.id) s

-- `setTrapExit` of an actor.
unfoldable pub set_trap_exit : ℕ → Bool → System → System
set_trap_exit id trap s = record s {
  actors = change id (λ a. record a { trap_exit = trap }) s.actors;
}
