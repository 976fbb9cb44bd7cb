-- ===== src/Domain/Member/Suppression.antt =====
-- INV-9: who stopped or was deleted stays so.
use yente.Prelude.{Text, ℕ, ◌≤◌, ◌≡◌, refl, ap, true, false, Option, List, [], ◌∷◌, arith, max_date}
use yente.Domain.Member.{
  Member, deleted, is_terminal, advance, begin_intake, begin_interview, require_more_evidence,
  mark_qualified, activate, stop_member, delete_member, can_receive_outbound,
}
use yente.Domain.Member.Runs.{
  Call, call, begins_intake, begins_interview, activates, requires_evidence, marks_qualified, stops,
  deletes, kept, run,
}

deleted_kept : (c : Call) (m : Member) → m.state ≡ deleted → kept m (call c m) ≡ m
unfolding call begin_intake begin_interview require_more_evidence mark_qualified activate
    stop_member delete_member advance
deleted_kept (begins_intake at) m d = ground arith
deleted_kept (begins_interview at) m d = ground arith
deleted_kept (activates at) m d = ground arith
deleted_kept (requires_evidence at reason policy) m d = ground arith
deleted_kept (marks_qualified q at) m d = ground arith
deleted_kept (stops at reason) m d = ground arith
deleted_kept (deletes at reason) m d = ground arith

terminal_kept :
    (c : Call) (m : Member)
    → is_terminal m.state ≡ true
    → is_terminal (kept m (call c m)).state ≡ true
unfolding call begin_intake begin_interview require_more_evidence mark_qualified activate
    stop_member delete_member advance
terminal_kept (begins_intake at) m d = ground arith
terminal_kept (begins_interview at) m d = ground arith
terminal_kept (activates at) m d = ground arith
terminal_kept (requires_evidence at reason policy) m d = ground arith
terminal_kept (marks_qualified q at) m d = ground arith
terminal_kept (stops at reason) m d = ground arith
terminal_kept (deletes at reason) m d = ground arith

-- No sequence of operations changes a deleted member.
pub run_deleted : (m : Member) (cs : List Call) → m.state ≡ deleted → run m cs ≡ m
unfolding run
run_deleted m [] d = refl
run_deleted m (c ∷ cs) d = rw (deleted_kept c m d) (run_deleted m cs d)

run_terminal :
    (m : Member) (cs : List Call)
    → is_terminal m.state ≡ true
    → can_receive_outbound (run m cs) ≡ false
unfolding run can_receive_outbound
run_terminal m [] d = ground arith
run_terminal m (c ∷ cs) d = run_terminal (kept m (call c m)) cs (terminal_kept c m d)

ended :
    (m : Member) (at : ℕ) (reason : Option Text)
    → at ≤ max_date
    → (is_terminal (kept m (stop_member m at reason)).state ≡ true)
      × ((kept m (delete_member m at reason)).state ≡ deleted)
unfolding stop_member delete_member
ended m at reason valid = (ground arith, ground arith)

-- At a valid time a stop or a deletion takes effect in every state, and after it no sequence of
-- operations makes the member one that may be written to; a deleted member is not changed again.
pub suppression_final :
    (m : Member) (at : ℕ) (reason : Option Text) (cs : List Call)
    → at ≤ max_date
    → (can_receive_outbound (run (kept m (stop_member m at reason)) cs) ≡ false)
      × (can_receive_outbound (run (kept m (delete_member m at reason)) cs) ≡ false)
      × (run (kept m (delete_member m at reason)) cs ≡ kept m (delete_member m at reason))
suppression_final m at reason cs valid =
    let (stop, delete) = ended m at reason valid in
    (run_terminal _ cs stop, run_terminal _ cs (ap is_terminal delete), run_deleted _ cs delete)
