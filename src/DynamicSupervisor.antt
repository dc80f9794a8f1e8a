-- ===== src/DynamicSupervisor.antt =====
-- src/dynamic_supervisor.ts: DynamicSupervisorActor over the actors of one node. The supervisor's
-- own reference is an argument of each handler; its children are those of its actor.
pub mod Limits
use libeam.Shared.{
  ℕ, ◌+◌, String, Bool, true, false, List, [], ◌∷◌, Option, none, some, leb, ◌==◌, length,
  if◌then◌else◌, or_else,
}
use libeam.ActorSystem.{
  ActorRef, ActorClass, Actor, ActorMetadata, ChildSupervisionOptions, one_for_one, SpawnOptions,
  System, spawn, spawn_child,
}
use libeam.Supervision.{stop_now}

-- `none` for `maxChildren` is no limit.
pub record DynamicSupervisorOptions : Type 0 where
  pub max_children : Option ℕ
  pub max_restarts : Option ℕ
  pub period_ms : Option ℕ

pub record ChildInfo : Type 0 where
  pub ref : ActorRef
  pub class_name : String
  pub name : Option String

pub record ChildCounts : Type 0 where
  pub specs : ℕ
  pub active : ℕ

pub data Started : Type 0 where
  max_children_error : ℕ → Started
  threw : Started
  started : ActorRef → Started

abbrev pub child_supervision : DynamicSupervisorOptions → ChildSupervisionOptions
child_supervision options = record {
  strategy = one_for_one;
  max_restarts = or_else options.max_restarts 3;
  period_ms = or_else options.period_ms 5000;
}

-- `DynamicSupervisor.start`: the supervisor is a root actor of this class.
abbrev pub supervisor_class : DynamicSupervisorOptions → ActorClass
supervisor_class options = record {
  class_name = "DynamicSupervisorActor";
  child_supervision = child_supervision options;
}

abbrev pub start : DynamicSupervisorOptions → SpawnOptions → System → Option (System × ActorRef)
start options spawn_options s = spawn (supervisor_class options) spawn_options s

abbrev pub children_of : Option Actor → List ActorRef
children_of none = []
children_of (some a) = a.children

abbrev pub children : ActorRef → System → List ActorRef
children self s = children_of (s.actors self.id)

abbrev pub at_limit : ℕ → Option ℕ → Bool
at_limit n none = false
at_limit n (some most) = leb most n

abbrev pub answer : System → Option (System × ActorRef) → System × Started
answer s none = (s, threw)
answer s (some (t, ref)) = (t, started ref)

unfoldable pub handle_start_child :
    Option ℕ → ActorRef → ActorClass → SpawnOptions → System → System × Started
handle_start_child max_children self cls options s =
    if at_limit (length (children self s)) max_children
    then (s, max_children_error (or_else max_children 0))
    else answer s (spawn_child self cls options s)

abbrev pub find_child : ℕ → List ActorRef → Option ActorRef
find_child id [] = none
find_child id (c ∷ cs) = if c.id == id then some c else find_child id cs

abbrev pub terminate_found : Option ActorRef → System → System × Bool
terminate_found none s = (s, false)
terminate_found (some c) s = (stop_now c s, true)

unfoldable pub handle_terminate_child : ActorRef → ActorRef → System → System × Bool
handle_terminate_child self ref s = terminate_found (find_child ref.id (children self s)) s

abbrev pub class_name_of : Option ActorMetadata → String
class_name_of none = "Unknown"
class_name_of (some m) = m.actor_class.class_name

-- `metadata?.actorClass?.name || "Unknown"` for a class that has a name.
abbrev pub infos : System → List ActorRef → List ChildInfo
infos s [] = []
infos s (c ∷ cs) =
    record { ref = c; class_name = class_name_of (s.actor_metadata c.id); name = c.name }
    ∷ infos s cs

unfoldable pub handle_which_children : ActorRef → System → List ChildInfo
handle_which_children self s = infos s (children self s)

unfoldable pub handle_count_children : ActorRef → System → ChildCounts
handle_count_children self s = record {
  specs = length (children self s);
  active = length (children self s);
}
