-- ===== src/IdleTimeout.antt =====
-- src/actor_system.ts: the idle timeout of one actor, with `setActorIdleTimeout`,
-- `_scheduleIdleTimeout`, `_resetIdleTimeout`, `_clearIdleTimeout` and the callbacks.
pub mod Due
use libeam.Shared.{
  ℕ, ◌+◌, ◌-◌, Bool, true, false, List, [], ◌∷◌, Option, none, some, ◌==◌, leb, if◌then◌else◌,
}

-- What the one handle waits for: to look whether the actor is idle, or to start another period.
pub data Wait : Type 0 where
  checks : ℕ → Wait
  schedules : ℕ → Wait

-- `timeout` is 0 where it is disabled, and `infos` are the times of the messages given to
-- `handleInfo`, the latest first.
pub record Idle : Type 0 where
  pub clock : ℕ
  pub alive : Bool
  pub timeout : ℕ
  pub last_activity : ℕ
  pub handle : Option Wait
  pub infos : List ℕ

abbrev pub schedule_idle : Idle → Idle
schedule_idle s =
    if s.timeout == 0 then s else record s { handle = some (checks (s.clock + s.timeout)) }

-- `none` is the exception for an actor that is not there.
unfoldable pub set_idle_timeout : ℕ → Idle → Option Idle
set_idle_timeout timeout_ms s =
    let s' = record s { handle = none; timeout = timeout_ms } in
    if s.alive
    then some
        (if timeout_ms == 0 then s' else schedule_idle (record s' { last_activity = s.clock }))
    else none

-- What `handleInfo` may call on the timeout before it returns or awaits: `setIdleTimeout`, or the
-- clearing that `stop` begins with.
pub data IdleCall : Type 0 where
  sets_timeout : ℕ → IdleCall
  clears_timeout : IdleCall

abbrev pub after_set : Idle → Option Idle → Idle
after_set s none = s
after_set s (some t) = t

unfoldable pub clear_idle_timeout : Idle → Idle
clear_idle_timeout s = record s { handle = none }

unfoldable pub handle_info : List IdleCall → Idle → Idle
unfolding set_idle_timeout clear_idle_timeout
handle_info [] s = s
handle_info (sets_timeout timeout_ms ∷ calls) s =
    handle_info calls (after_set s (set_idle_timeout timeout_ms s))
handle_info (clears_timeout ∷ calls) s = handle_info calls (clear_idle_timeout s)

-- Where the actor has been idle long enough, `handleInfo` is called with the message, and when it
-- has returned, or awaits, the next period starts.
abbrev pub check_idle : List IdleCall → Idle → Idle
check_idle calls s =
    if s.alive
    then (if leb (s.last_activity + s.timeout) s.clock
        then schedule_idle
            (record (handle_info calls
              (record s { infos = (s.clock - s.last_activity) ∷ s.infos })) {
                last_activity = s.clock;
              })
        else record s { handle = some (schedules (s.last_activity + s.timeout)) })
    else s

abbrev pub elapse_wait : List IdleCall → Option Wait → Idle → Idle
elapse_wait calls none s = s
elapse_wait calls (some (checks d)) s = check_idle calls (record s { handle = none })
elapse_wait calls (some (schedules d)) s = schedule_idle (record s { handle = none })

-- The callback that the handle waits for runs.
unfoldable pub elapse : List IdleCall → Idle → Idle
unfolding handle_info
elapse calls s = elapse_wait calls s.handle s

unfoldable pub reset_idle_timeout : Idle → Idle
reset_idle_timeout s =
    if s.timeout == 0 then s else schedule_idle (record s { last_activity = s.clock })

abbrev pub spawned : ℕ → Idle
spawned clock = record {
  clock = clock;
  alive = true;
  timeout = 0;
  last_activity = clock;
  handle = none;
  infos = [];
}

pub data IdleAction : Type 0 where
  passes : ℕ → IdleAction
  sets : ℕ → IdleAction
  elapses : List IdleCall → IdleAction
  handles : IdleAction
  clears : IdleAction
  deletes : IdleAction

-- `handles` is the end of a handler, when `_resetIdleTimeout` is called.
unfoldable pub act : IdleAction → Idle → Idle
unfolding set_idle_timeout elapse reset_idle_timeout clear_idle_timeout
act (passes n) s = record s { clock = s.clock + n }
act (sets timeout_ms) s = after_set s (set_idle_timeout timeout_ms s)
act (elapses calls) s = elapse calls s
act handles s = reset_idle_timeout s
act clears s = clear_idle_timeout s
act deletes s = record s { alive = false }

unfoldable pub act_all : List IdleAction → Idle → Idle
unfolding act
act_all [] s = s
act_all (a ∷ actions) s = act_all actions (act a s)
