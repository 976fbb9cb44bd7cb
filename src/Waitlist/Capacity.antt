-- ===== src/Waitlist/Capacity.antt =====
-- src/waitlist/capacity.js: how many seats of each cohort are taken.
mod Tests
use yente.Prelude.{
  Text, ℕ, suc, ◌+◌, ◌-◌, ◌*◌, max, ◌≡◌, ◌↔◌, refl, Bool, true, false, ◌&&◌, ◌||◌, Option, none,
  some, List, [], ◌∷◌, codes, same, same_iff, includes, leb, if◌then◌else◌, arith, Result, ok, err,
}

-- COHORTS
abbrev pub founder_developer : Text
founder_developer = codes "founder_developer"

abbrev pub investor_employer : Text
investor_employer = codes "investor_employer"

abbrev pub cohort_limit : ℕ
cohort_limit = 5000

abbrev pub counted_subscriber_states : List Text
counted_subscriber_states = codes "waiting" ∷ codes "qualified" ∷ codes "active" ∷ []

pub data Error : Type 0 where
  unknown_cohort : Text → Error

unfoldable pub assert_cohort : Text → Result Error Text
assert_cohort value =
    if includes value (founder_developer ∷ investor_employer ∷ [])
    then ok value
    else err (unknown_cohort value)

pub record Subscriber : Type 0 where
  pub cohort : Text
  pub status : Text

pub record Joined : Type 0 where
  pub founders : ℕ
  pub investors : ℕ

abbrev add_to : Text → Joined → Joined
add_to cohort j =
    if same cohort founder_developer
    then record j { founders = suc j.founders }
    else (if same cohort investor_employer then record j { investors = suc j.investors } else j)

-- The loop that counts.
unfoldable pub count_joined : Joined → List Subscriber → Joined
count_joined j [] = j
count_joined j (s ∷ rest) =
    count_joined (if includes s.status counted_subscriber_states then add_to s.cohort j else j) rest

pub record Cohort : Type 0 where
  pub limit : ℕ
  pub joined : ℕ
  pub remaining : ℕ
  pub full : Bool

-- The subtraction on ℕ stops at 0, as `Math.max(0, ...)` does.
abbrev pub cohort_of : ℕ → Cohort
cohort_of joined = record {
  limit = cohort_limit;
  joined = joined;
  remaining = cohort_limit - joined;
  full = leb cohort_limit joined;
}

pub record Snapshot : Type 0 where
  pub sequence : Option Text
  pub updated_at : Option Text
  pub total_limit : ℕ
  pub total_joined : ℕ
  pub total_remaining : ℕ
  pub founders_developers : Cohort
  pub investors_employers : Cohort

abbrev nobody : Joined
nobody = record { founders = 0; investors = 0 }

unfoldable pub build_capacity_snapshot : List Subscriber → Option Text → Option Text → Snapshot
build_capacity_snapshot records sequence updated_at =
    let joined = count_joined nobody records in
    record {
      sequence = sequence;
      updated_at = updated_at;
      total_limit = cohort_limit * 2;
      total_joined = joined.founders + joined.investors;
      total_remaining = cohort_limit - joined.founders + (cohort_limit - joined.investors);
      founders_developers = cohort_of joined.founders;
      investors_employers = cohort_of joined.investors;
    }

-- The subscribers that hold a seat of a cohort.
unfoldable pub seats : Text → List Subscriber → ℕ
seats cohort [] = 0
seats cohort (s ∷ rest) =
    let others = seats cohort rest in
    if includes s.status counted_subscriber_states && same s.cohort cohort
    then suc others
    else others

founder_not_investor : same founder_developer investor_employer ≡ false
unfolding same
founder_not_investor = refl

cohorts_differ : (c : Text) → same c founder_developer ≡ true → same c investor_employer ≡ false
cohorts_differ c h = rw ((same_iff c founder_developer).0 h) founder_not_investor

count_joined-seats :
    (records : List Subscriber) (j : Joined)
    → ((count_joined j records).founders ≡ j.founders + seats founder_developer records)
      × ((count_joined j records).investors ≡ j.investors + seats investor_employer records)
unfolding count_joined seats
count_joined-seats [] j = (ground arith, ground arith)
count_joined-seats (s ∷ rest) j = ground (
  arith,
  cohorts_differ s.cohort,
  count_joined-seats rest j,
  count_joined-seats rest (add_to s.cohort j),
)

-- One cohort as a snapshot shows it.
pub record IsCounted (taken : ℕ) (c : Cohort) : Type 0 where
  pub joined_is : c.joined ≡ taken
  pub adds_up : c.joined + c.remaining ≡ max c.limit taken
  pub full_iff : (c.full ≡ true) ↔ (c.remaining ≡ 0)

cohort_of-IsCounted : (taken n : ℕ) → n ≡ taken → IsCounted taken (cohort_of n)
cohort_of-IsCounted taken n e = record {
  joined_is = e;
  adds_up = omega arith;
  full_iff = ((λ h. ground arith), (λ h. ground arith));
}

-- A snapshot shows for each cohort the subscribers in it that count, and the seats that are left: these
-- add up to the limit, or to the subscribers if there are more; none is left exactly if the cohort is
-- shown as full; the totals are those of the two.
pub build_capacity_snapshot-IsCounted :
    (records : List Subscriber) (sequence updated_at : Option Text)
    → let s = build_capacity_snapshot records sequence updated_at in
      IsCounted (seats founder_developer records) s.founders_developers
      × IsCounted (seats investor_employer records) s.investors_employers
      × (s.total_joined ≡ seats founder_developer records + seats investor_employer records)
      × (s.total_remaining ≡ s.founders_developers.remaining + s.investors_employers.remaining)
unfolding build_capacity_snapshot
build_capacity_snapshot-IsCounted records sequence updated_at =
    let (founders, investors) = count_joined-seats records nobody in
    (
      cohort_of-IsCounted (seats founder_developer records) _ (ground (arith, founders)),
      cohort_of-IsCounted (seats investor_employer records) _ (ground (arith, investors)),
      ground arith,
      refl,
    )
