-- ===== src/Domain/Member/Runs.antt =====
-- The operations on one member, and the members that they reach.
use yente.Prelude.{Text, ℕ, ◌≡◌, Option, List, [], ◌∷◌, Result, ok, err, Result-cases, inl, inr}
use yente.Domain.Member.{
  Member, Error, Input, Qualification, create_member, begin_intake, begin_interview,
  require_more_evidence, mark_qualified, activate, stop_member, delete_member,
}

pub data Call : Type 0 where
  begins_intake begins_interview activates : ℕ → Call
  requires_evidence : ℕ → Option Text → Option Text → Call
  marks_qualified : Qualification → ℕ → Call
  stops deletes : ℕ → Option Text → Call

unfoldable pub call : Call → Member → Result Error Member
call (begins_intake at) m = begin_intake m at
call (begins_interview at) m = begin_interview m at
call (activates at) m = activate m at
call (requires_evidence at reason policy) m = require_more_evidence m at reason policy
call (marks_qualified q at) m = mark_qualified m q at
call (stops at reason) m = stop_member m at reason
call (deletes at reason) m = delete_member m at reason

pub data Reached (i : Input) : Member → Type 0 where
  created : {m : Member} → create_member i ≡ ok m → Reached i m
  next : {m n : Member} (c : Call) → Reached i m → call c m ≡ ok n → Reached i n

-- A throw leaves the member as it was.
abbrev pub kept : Member → Result Error Member → Member
kept m (ok n) = n
kept m (err e) = m

unfoldable pub run : Member → List Call → Member
run m [] = m
run m (c ∷ cs) = run (kept m (call c m)) cs

kept-Reached : {i : Input} {m : Member} (c : Call) → Reached i m → Reached i (kept m (call c m))
kept-Reached {m = m} c r = elim (Result-cases (call c m)) [
  | inl (n, e) ↦ rw e (next c r e)
  | inr (x, e) ↦ rw e r
]

pub Reached-run : {i : Input} (m : Member) (cs : List Call) → Reached i m → Reached i (run m cs)
unfolding run
Reached-run m [] r = r
Reached-run m (c ∷ cs) r = Reached-run (kept m (call c m)) cs (kept-Reached c r)
