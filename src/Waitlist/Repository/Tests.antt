-- ===== src/Waitlist/Repository/Tests.antt =====
-- A waitlist, at concrete inputs.
use yente.Prelude.{Text, ℕ, ◌≤◌, true, List, [], ◌∷◌, codes, arith}
use yente.Store.Cells.{Engine}
use yente.Store.Cells.Sums.{unique_engine, unique_distinct, once}
use yente.Waitlist.Capacity.{cohort_limit, founder_developer, investor_employer}
use yente.Waitlist.Repository.{Record, Draw, Waitlist, active_in_cohort}
use yente.Waitlist.Repository.Bound.{Call, subscribes, claims, run, seats, run_in_bound}

abbrev engine : Engine Record (List (Text × Record))
engine = unique_engine

abbrev hash : Text → Text
hash t = t

abbrev draw : ℕ → Draw
draw n = record { now = n; event_id = codes "e"; event_hash = codes "h" }

abbrev empty : Waitlist engine hash
empty = record { subscribers = []; events = [] }

abbrev calls : List Call
calls =
    claims (codes " Ada@Example.org") founder_developer (draw 1)
    ∷ subscribes
        (record {
          email = codes "ada@example.org";
          name = codes "Ada  L";
          intent = codes "hire";
          cohort = investor_employer;
          consent = true;
        })
        (draw 2)
    ∷ []

run_in_bound_example :
    seats engine unique_distinct hash investor_employer (run engine hash empty calls) ≤ cohort_limit
unfolding active_in_cohort once
run_in_bound_example =
    run_in_bound engine unique_distinct hash calls empty investor_employer (omega arith)
