-- ===== src/Domain/Workflow/Tests.antt =====
-- The workflow of one match, run at concrete inputs.
use yente.Prelude.{
  ◌≡◌, refl, inl, false, none, some, List, [], ◌∷◌, ok, arith, codes, same, ◌++◌, lookup, insert,
}
use yente.Domain.Workflow.{
  Workflow, Input, propose_match, queue_previews, mark_preview_sent, require_member, deliver,
  open_veto_window, deliveries, latest, record_preview_decision, supported_decision, decide, settle,
  all_approve, new_preview, match_proposed, advance_veto_deadline, queue_introduction,
  mark_introduced, introduced, proposed, create_match_workflow, veto_window,
}
use yente.Domain.Workflow.Runs.{
  Call, call, queues_previews, delivers_preview, decides, advances, queues_introduction, introduces,
  Reached, proposal, run, Reached-run,
}
use yente.Domain.Workflow.Invariant.{Authorised}
use yente.Domain.Workflow.Safety.{is_released, released-Authorised, objection_final}
use yente.Domain.Workflow.Retries.{call_again}
use yente.Domain.Workflow.Continuity.{Continues, run-Continues}
use yente.Domain.Workflow.Silence.{pair_input, silent_match}

abbrev couple : Input
couple = pair_input (codes "m1") (codes "k1") (codes "ann") (codes "bob") 5 1000

abbrev start : Workflow
start = record {
  match_id = codes "m1";
  match_idempotency_key = codes "k1";
  state = proposed;
  veto_window_ms = 1000;
  deadline_at = none;
  previews = (codes "ann", new_preview) ∷ (codes "bob", new_preview) ∷ [];
  introduction = record {
    idempotency_key = codes "m1:joint-introduction";
    message_id = none;
    sent_at = none;
  };
  history = (match_proposed, 5) ∷ [];
}

start-Reached : Reached couple start
unfolding propose_match same
start-Reached = proposal refl

-- Both previews out, and a window until 1020.
abbrev to_window : List Call
to_window =
    queues_previews 6
    ∷ delivers_preview (codes "ann") (some (codes "<a>")) 10
    ∷ delivers_preview (codes "bob") (some (codes "<b>")) 20
    ∷ []

unfolds : Unit {0}
unfolding run call queue_previews mark_preview_sent require_member deliver open_veto_window
    deliveries latest record_preview_decision supported_decision decide settle all_approve
    advance_veto_deadline queue_introduction mark_introduced lookup insert same
unfolds = tt

abbrev silent : List Call
silent =
    to_window
    ++ advances 1020 ∷ queues_introduction 1021 ∷ introduces (some (codes "<i>")) 1022 ∷ []

-- One millisecond early, the window stays open.
too_early : (run start (to_window ++ advances 1019 ∷ [])).state ≡ veto_window
unfolding unfolds
too_early = refl

silent_is_introduced : (run start silent).state ≡ introduced
unfolding unfolds
silent_is_introduced = refl

released-Authorised_example : Authorised (run start silent)
unfolding unfolds
released-Authorised_example =
    released-Authorised (run start silent) (Reached-run start silent start-Reached) refl

-- Ann approves and then passes.
abbrev declined : List Call
declined =
    to_window
    ++ decides (codes "ann") (codes "APPROVE") 30 ∷ decides (codes "ann") (codes "PASS") 40 ∷ []

objection_final_example :
    (is_released (run start declined).state ≡ false)
    × (run (run start declined) (advances 9999 ∷ queues_introduction 9999 ∷ [])
        ≡ run start declined)
unfolding unfolds
objection_final_example =
    objection_final (run start declined) (advances 9999 ∷ queues_introduction 9999 ∷ [])
      (Reached-run start declined start-Reached) (inl refl)

call_again_example :
    call (advances 1020) (run start (to_window ++ advances 1020 ∷ []))
    ≡ ok (run start (to_window ++ advances 1020 ∷ []))
unfolding unfolds
call_again_example =
    call_again (advances 1020) (run start to_window) (run start (to_window ++ advances 1020 ∷ []))
      refl refl

run-Continues_example : Continues start (run start declined)
run-Continues_example = run-Continues start declined

silent_match_example :
    (w : Workflow) × (create_match_workflow couple ≡ ok w)
    × (let v = run w (
          delivers_preview (codes "ann") (some (codes "<a>")) 10
          ∷ delivers_preview (codes "bob") (some (codes "<b>")) 20
          ∷ advances 1020
          ∷ queues_introduction 1020
          ∷ introduces (some (codes "<i>")) 1020
          ∷ []) in
        (v.state ≡ introduced) × (v.introduction.message_id ≡ some (codes "<i>")))
unfolding same
silent_match_example =
    silent_match (codes "m1") (codes "k1") (codes "ann") (codes "bob") 5 1000 10 20 1020 b'<' b'<'
      b'<' (codes "a>") (codes "b>") (codes "i>") refl (omega arith) (omega arith) (omega arith)
      (omega arith)
