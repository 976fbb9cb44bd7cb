-- ===== src/Runtime/Lanes.antt =====
-- src/runtime/lanes.js: a pool of worker threads that each run one task at a time. A worker is the
-- number of its spawn, a task the number in its id, `t1`, `t2`, …. The state keeps what the promises of
-- `dispatch` were settled with and what was posted to which worker, so that both can be spoken of. The
-- threads run in between; what they send, and their exit, are calls on the pool.
pub mod Counts
pub mod Runs
pub mod Sound
pub mod Preserved
pub mod Settled
mod Tests
use yente.Prelude.{
  Text, ℕ, zero, suc, ◌+◌, Bool, true, false, not, Option, none, some, is_some, List, [], ◌∷◌, ◌++◌,
  codes, leb, if◌then◌else◌, ◌==◌,
}

-- `Map.get`, `Map.set` and `Map.delete` by number.
module _ {ℓ} {V : Type ℓ} where
  unfoldable pub find : ℕ → List (ℕ × V) → Option V
  find k [] = none
  find k ((j, v) ∷ m) = if j == k then some v else find k m

  unfoldable pub assign : ℕ → V → List (ℕ × V) → List (ℕ × V)
  assign k v [] = (k, v) ∷ []
  assign k v ((j, w) ∷ m) = if j == k then (j, v) ∷ m else (j, w) ∷ assign k v m

  unfoldable pub forget : ℕ → List (ℕ × V) → List (ℕ × V)
  forget k [] = []
  forget k ((j, w) ∷ m) = let rest = forget k m in if j == k then rest else (j, w) ∷ rest

unfoldable pub drop_number : ℕ → List ℕ → List ℕ
drop_number k [] = []
drop_number k (j ∷ l) = let rest = drop_number k l in if j == k then rest else j ∷ rest

pub record Task : Type 0 where
  pub id : ℕ
  pub kind : Text
  pub payload : Text

-- How a promise ends; a rejection carries the code of its LaneError.
pub data Outcome : Type 0 where
  resolved : Text → Outcome
  rejected : Text → Outcome

pub record Pool : Type 0 where
  pub next_id : ℕ
  pub next_worker : ℕ
  pub shutting_down : Bool
  pub pending : List (ℕ × Option Text)
  pub waiting : List Task
  pub lanes : List ℕ
  pub busy : List (ℕ × ℕ)
  pub settled : List (ℕ × Outcome)
  pub posted : List (ℕ × Task)

unfoldable pub spawn : Pool → Pool
spawn s = record s { lanes = s.lanes ++ s.next_worker ∷ []; next_worker = suc s.next_worker }

unfoldable pub first_idle : List (ℕ × ℕ) → List ℕ → Option ℕ
first_idle busy [] = none
first_idle busy (w ∷ ws) = if is_some (find w busy) then first_idle busy ws else some w

unfoldable pub idle_lane : Pool → Option ℕ
idle_lane s = first_idle s.busy s.lanes

-- A task goes to a lane.
abbrev pub posted_to : ℕ → Task → List Task → Pool → Pool
posted_to lane t rest s = record s {
  waiting = rest;
  busy = assign lane t.id s.busy;
  posted = s.posted ++ (lane, t) ∷ [];
}

-- The loop of `pump`, over the tasks that wait.
unfoldable pub pump_loop : List Task → Pool → Pool
pump_loop [] s = s
pump_loop (t ∷ rest) s = elim (idle_lane s) [
  | none ↦ s
  | some lane ↦ pump_loop rest (posted_to lane t rest s)
]

unfoldable pub pump : Pool → Pool
pump s = pump_loop s.waiting s

abbrev pub settle : ℕ → Outcome → Pool → Pool
settle id outcome s = record s {
  pending = forget id s.pending;
  settled = s.settled ++ (id, outcome) ∷ [];
}

-- A message with the result of a task; one that nobody waits for is dropped.
unfoldable pub on_message : ℕ → ℕ → Outcome → Pool → Pool
on_message worker id outcome s = elim (find id s.pending) [
  | none ↦ s
  | some meta ↦ pump (record (settle id outcome s) { busy = forget worker s.busy })
]

-- The meta of the task that a worker streams about.
unfoldable pub on_stream : ℕ → Pool → Option Text
on_stream worker s = elim (find worker s.busy) [
  | none ↦ none
  | some id ↦ elim (find id s.pending) [ none ↦ none | some meta ↦ meta ]
]

abbrev pub crashed : Outcome
crashed = rejected (codes "LANE_CRASHED")

abbrev pub shut_down : Outcome
shut_down = rejected (codes "LANE_SHUTDOWN")

-- `if (id && pending.has(id))`, with the rejection.
abbrev pub reject_crashed : Option ℕ → Pool → Pool
reject_crashed none s = s
reject_crashed (some id) s = if is_some (find id s.pending) then settle id crashed s else s

abbrev pub without_worker : ℕ → Pool → Pool
without_worker worker s = record s {
  lanes = drop_number worker s.lanes;
  busy = forget worker s.busy;
}

abbrev pub respawn : Pool → Pool
respawn s = if s.shutting_down then s else pump (spawn s)

unfoldable pub on_exit : ℕ → Pool → Pool
on_exit worker s = respawn (reject_crashed (find worker s.busy) (without_worker worker s))

-- The id of the promise, unless the pool is shutting down, which rejects at once.
unfoldable pub dispatch : Text → Text → Option Text → Pool → Pool × Option ℕ
dispatch kind payload meta s = if s.shutting_down then (s, none) else (
  pump (record s {
    next_id = suc s.next_id;
    pending = assign s.next_id meta s.pending;
    waiting = s.waiting ++ record { id = s.next_id; kind = kind; payload = payload } ∷ [];
  }),
  some s.next_id,
)

unfoldable pub reject_all : List (ℕ × Option Text) → List (ℕ × Outcome)
reject_all [] = []
reject_all ((id, meta) ∷ rest) = (id, shut_down) ∷ reject_all rest

-- `shutdown` before it waits for the workers to end, and after.
unfoldable pub begin_shutdown : Pool → Pool
begin_shutdown s = record s {
  shutting_down = true;
  pending = [];
  waiting = [];
  settled = s.settled ++ reject_all s.pending;
}

unfoldable pub end_shutdown : Pool → Pool
end_shutdown s = record s { lanes = []; busy = [] }

abbrev no_lanes : Pool
no_lanes = record {
  next_id = 1;
  next_worker = 0;
  shutting_down = false;
  pending = [];
  waiting = [];
  lanes = [];
  busy = [];
  settled = [];
  posted = [];
}

unfoldable pub spawn_all : ℕ → Pool → Pool
spawn_all zero s = s
spawn_all (suc n) s = spawn_all n (spawn s)

-- A size below 1 throws.
unfoldable pub create_lanes : ℕ → Option Pool
create_lanes size = if leb 1 size then some (spawn_all size no_lanes) else none
