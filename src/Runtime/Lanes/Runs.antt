-- ===== src/Runtime/Lanes/Runs.antt =====
-- What happens to a pool: calls of the program, and what its threads do. A worker answers the task that
-- it was given last, under its id, as src/runtime/lane-worker.mjs does, and only a live one ends.
use yente.Prelude.{Text, ℕ, ◌<◌, ◌≡◌, Option, some, true}
use yente.Runtime.Lanes.{
  Pool, Outcome, find, dispatch, on_message, on_exit, begin_shutdown, end_shutdown, create_lanes,
}
use yente.Runtime.Lanes.Counts.{count}

pub data Event : Type 0 where
  dispatches : Text → Text → Option Text → Event
  answers : ℕ → ℕ → Outcome → Event
  exits : ℕ → Event
  shuts_down : Event
  workers_ended : Event

unfoldable pub after : Event → Pool → Pool
after (dispatches kind payload meta) s = (dispatch kind payload meta s).0
after (answers worker id outcome) s = on_message worker id outcome s
after (exits worker) s = on_exit worker s
after shuts_down s = begin_shutdown s
after workers_ended s = end_shutdown s

abbrev pub Happens : Event → Pool → Type 0
Happens (dispatches kind payload meta) s = Unit {0}
Happens (answers worker id outcome) s = find worker s.busy ≡ some id
Happens (exits worker) s = 0 < count worker s.lanes
Happens shuts_down s = Unit {0}
Happens workers_ended s = s.shutting_down ≡ true

pub data Reached (size : ℕ) : Pool → Type 0 where
  created : {s : Pool} → create_lanes size ≡ some s → Reached size s
  next : {s : Pool} (e : Event) → Reached size s → Happens e s → Reached size (after e s)

pub data Follows : Pool → Pool → Type 0 where
  same_pool : {s : Pool} → Follows s s
  then_event : {s t : Pool} (e : Event) → Follows s t → Happens e t → Follows s (after e t)
