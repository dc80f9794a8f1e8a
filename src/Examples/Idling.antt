-- ===== src/Examples/Idling.antt =====
-- Runs of the idle timeout of src/actor_system.ts.
use libeam.Shared.{List, [], ◌∷◌, none, some, ◌≡◌, refl}
use libeam.IdleTimeout.{
  checks, sets_timeout, handle_info, set_idle_timeout, elapse, reset_idle_timeout,
  clear_idle_timeout, spawned, IdleAction, passes, sets, elapses, handles, clears, act, act_all,
}

-- The timeout of 10 is set at 3, a message is handled at 8, and the clock reads 20.
abbrev idle_run : List IdleAction
idle_run = sets 10 ∷ passes 5 ∷ handles ∷ passes 12 ∷ []

disabled_by_handler : (elapse (sets_timeout 0 ∷ []) (act_all idle_run (spawned 3))).handle ≡ none
unfolding act_all act set_idle_timeout reset_idle_timeout elapse handle_info
disabled_by_handler = refl

-- A check that runs a millisecond early waits for the rest and then for a whole timeout again.
early_check :
    (act_all (sets 10 ∷ passes 9 ∷ elapses [] ∷ passes 1 ∷ elapses [] ∷ []) (spawned 0)).handle
    ≡ some (checks 20)
unfolding act_all act set_idle_timeout elapse
early_check = refl

-- The wait is over when the handle is cleared.
cleared_idle : (act_all (sets 10 ∷ clears ∷ passes 30 ∷ elapses [] ∷ []) (spawned 0)).infos ≡ []
unfolding act_all act set_idle_timeout clear_idle_timeout elapse
cleared_idle = refl
