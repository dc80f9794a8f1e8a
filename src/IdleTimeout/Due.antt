-- ===== src/IdleTimeout/Due.antt =====
-- When the check of the idle timeout of src/actor_system.ts delivers its message.
use libeam.Shared.{ℕ, ◌+◌, ◌-◌, ◌≤◌, ◌<◌, true, List, [], ◌∷◌, Option, none, some, ◌≡◌}
use libeam.IdleTimeout.{Wait, checks, schedules, Idle, IdleCall, sets_timeout, clears_timeout}

-- No wait ends before the actor has been idle for the timeout, which is not disabled then.
abbrev pub Timely : Option Wait → ℕ → ℕ → Type 0
Timely none last timeout = last ≡ last
Timely (some (checks d)) last timeout = (last + timeout ≤ d) × (0 < timeout)
Timely (some (schedules d)) last timeout = (last + timeout ≤ d) × (0 < timeout)

abbrev pub IsTimely : Idle → Type 0
IsTimely s = Timely s.handle s.last_activity s.timeout × (s.last_activity ≤ s.clock)

-- While `handleInfo` runs: what it called keeps the actor, the clock and the messages, a disabled
-- timeout has no wait, and the wait is timely.
record Told (s t : Idle) : Type 0 where
  there : t.alive ≡ true
  same_clock : t.clock ≡ s.clock
  same_infos : t.infos ≡ s.infos
  disabled : t.timeout ≡ 0 → t.handle ≡ none

-- The timeout that is left when these calls have been made.
abbrev pub timeout_after : List IdleCall → ℕ → ℕ
timeout_after [] timeout = timeout
timeout_after (sets_timeout timeout_ms ∷ calls) timeout = timeout_after calls timeout_ms
timeout_after (clears_timeout ∷ calls) timeout = timeout_after calls timeout

abbrev noted : Idle → Idle
noted s = record s { infos = (s.clock - s.last_activity) ∷ s.infos; handle = none }
