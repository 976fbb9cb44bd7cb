-- ===== src/Runtime/Lanes/Tests.antt =====
-- A pool of two lanes, at concrete inputs.
use yente.Prelude.{refl, none, [], codes, arith}
use yente.Runtime.Lanes.{
  Pool, resolved, create_lanes, spawn_all, spawn, dispatch, on_message, on_exit, begin_shutdown,
  pump, pump_loop, idle_lane, first_idle, find, assign, forget, drop_number, reject_all, no_lanes,
}
use yente.Runtime.Lanes.Counts.{count, keys}
use yente.Runtime.Lanes.Runs.{dispatches, answers, exits, after, Reached, created, next}
use yente.Runtime.Lanes.Sound.{IsSound}
use yente.Runtime.Lanes.Preserved.{IsPumped}
use yente.Runtime.Lanes.Settled.{Reached-IsSound}

abbrev fresh : Pool
fresh = spawn_all 2 no_lanes

abbrev three_tasks : Pool
three_tasks =
    after (dispatches (codes "c") [] none)
      (after (dispatches (codes "b") [] none) (after (dispatches (codes "a") [] none) fresh))

abbrev answered_then_crashed : Pool
answered_then_crashed = after (exits 1) (after (answers 0 1 (resolved [])) three_tasks)

-- The definitions that the runs compute with.
unfolds : Unit {0}
unfolding after create_lanes spawn_all spawn dispatch on_message on_exit begin_shutdown pump
    pump_loop idle_lane first_idle find assign forget drop_number reject_all count keys
unfolds = tt

fresh_reached : Reached 2 fresh
unfolding unfolds
fresh_reached = created refl

three_reached : Reached 2 three_tasks
unfolding unfolds
three_reached =
    next (dispatches (codes "c") [] none)
      (next (dispatches (codes "b") [] none)
        (next (dispatches (codes "a") [] none) fresh_reached tt) tt)
      tt

crashed_reached : Reached 2 answered_then_crashed
unfolding unfolds
crashed_reached = next (exits 1) (next (answers 0 1 (resolved [])) three_reached refl) (omega arith)

Reached-IsSound_example : IsSound 2 answered_then_crashed × IsPumped 2 answered_then_crashed
Reached-IsSound_example = Reached-IsSound 2 answered_then_crashed crashed_reached
