-- ===== src/Domain/Member/Qualified.antt =====
-- What `advance` and `markQualified` return, and which qualifications a member then has.
use yente.Prelude.{
  Text, ℕ, ◌≡◌, true, some, [], ◌∷◌, ◌++◌, ok, arith, same, insert, lookup-insert, if◌then◌else◌,
}
use yente.Domain.Member.{
  Member, Event, was_qualified, State, Qualification, qualified, advance, mark_qualified, allows,
  is_qualified_for,
}

-- The member that `advance` returns.
abbrev pub moved : Member → State → Event → ℕ → Member
moved m to event at = record m { state = to; history = m.history ++ (event, at) ∷ [] }

pub advance_cases :
    (m n : Member) (to : State) (at : ℕ) (event : Event)
    → advance m to at event ≡ ok n
    → (allows m.state to ≡ true) × (n ≡ moved m to event at)
unfolding advance
advance_cases m n to at event e = ground arith

-- The member that `mark_qualified` returns.
abbrev pub marked : Member → Qualification → ℕ → Member
marked m q at = record m {
  state = qualified;
  history = m.history ++ (was_qualified q.policy_id q.policy_version, at) ∷ [];
  qualifications =
      insert q.policy_id (record { policy_version = q.policy_version; qualified_at = at })
        m.qualifications;
}

pub mark_qualified_cases :
    (m n : Member) (q : Qualification) (at : ℕ)
    → mark_qualified m q at ≡ ok n
    → (q.qualified ≡ true) × (n ≡ marked m q at)
unfolding mark_qualified advance
mark_qualified_cases m n q at e = ground arith

-- A qualification is recorded only from a passing result. After it the member is qualified for that
-- policy at exactly that version, and for the other policies as before.
pub is_qualified_for-mark_qualified :
    (m n : Member) (q : Qualification) (at : ℕ) (policy version : Text)
    → mark_qualified m q at ≡ ok n
    → (q.qualified ≡ true)
      × (is_qualified_for n policy (some version) ≡ (
          if same q.policy_id policy
          then same q.policy_version version
          else is_qualified_for m policy (some version)))
is_qualified_for-mark_qualified m n q at policy version e =
    let (passed, f) = mark_qualified_cases m n q at e in
    (passed, rw f (unfold is_qualified_for in rw lookup-insert (ground arith)))
