-- ===== src/Waitlist/Capacity/Tests.antt =====
-- Three subscribers, at concrete inputs.
use yente.Prelude.{none, List, [], ◌∷◌, codes}
use yente.Waitlist.Capacity.{
  Subscriber, Snapshot, build_capacity_snapshot, founder_developer, investor_employer,
}

abbrev subscribers : List Subscriber
subscribers =
    record { cohort = founder_developer; status = codes "waiting" }
    ∷ record { cohort = founder_developer; status = codes "stopped" }
    ∷ record { cohort = investor_employer; status = codes "active" }
    ∷ []

abbrev snapshot : Snapshot
snapshot = build_capacity_snapshot subscribers none none
