-- ===== src/Runtime/Decisions/Cancelled.antt =====
-- The loop over the matches.
use yente.Prelude.{
  Text, ℕ, ◌≤◌, ◌≡◌, refl, sym, ap, subst, ◌∙◌, Bool, true, false, Option, none, some, List, [],
  ◌∷◌, ◌++◌, lookup, arith, Bool-cases, Option-cases, inl, inr, ◌⊎◌, max_date,
}
use yente.Domain.Workflow.{Workflow, Input, accepts_decision}
use yente.Domain.Workflow.Runs.{Reached}
use yente.Store.Cells.{Engine, sweep, read_by, put_some}
use yente.Store.Cells.Laws.{get-sweep, or_else}
use yente.Runtime.Decisions.{
  Stop, stop_decision, Step, skips, writes, throws, concerns, step_of, step_of_result, step_at,
  Decided, decide_rows, cancel_pending_for, undecided,
}
use yente.Runtime.Decisions.Taken.{IsEnded, IsEnded-match}

-- What is written for a row, if its decision does not throw.
abbrev pub new_row : Step → Option Workflow
new_row (writes w) = some w
new_row _ = none

abbrev pub IsCalm : Step → Type 0
IsCalm (throws x) = Bool.true ≡ false
IsCalm _ = Unit {0}

module _ {W : Type 0} (e : Engine Workflow W) where
  abbrev next_row : Step → Text → Decided e → Decided e
  next_row (writes w) id s = record s {
    matches = e.put s.matches id w;
    touched = s.touched ++ id ∷ [];
  }
  next_row _ id s = s

  calm_step :
      (address decision : Text) (now : ℕ) (start : W) (id : Text) (ids : List Text) (s : Decided e)
      (step : Step)
      → step_at address decision now (e.get start id) ≡ step
      → IsCalm step
      → decide_rows e address decision now start (id ∷ ids) s
        ≡ decide_rows e address decision now start ids (next_row step id s)
  unfolding decide_rows
  calm_step address decision now start id ids s skips h c = ground (arith, h)
  calm_step address decision now start id ids s (writes w) h c = ground (arith, h)
  calm_step address decision now start id ids s (throws x) h c = absurd (ground (arith, c))

  read_step :
      (address decision : Text) (now : ℕ) (row : Option Workflow)
      → read_by e row (λ w. new_row (step_of address decision now w))
        ≡ new_row (step_at address decision now row)
  read_step address decision now none = refl
  read_step address decision now (some w) = refl

  put_step :
      (step : Step) (id : Text) (s : Decided e)
      → ((next_row step id s).matches ≡ put_some e s.matches id (new_row step))
        × ((next_row step id s).failed ≡ s.failed)
  put_step skips id s = (refl, refl)
  put_step (writes w) id s = (refl, refl)
  put_step (throws x) id s = (refl, refl)

  -- A loop in which nothing throws is a sweep.
  calm_loop :
      (address decision : Text) (now : ℕ) (start : W)
      → ((id : Text) → IsCalm (step_at address decision now (e.get start id)))
      → (ids : List Text) (s : Decided e)
      → ((decide_rows e address decision now start ids s).matches
          ≡ sweep e start (λ w. new_row (step_of address decision now w)) s.matches ids)
        × ((decide_rows e address decision now start ids s).failed ≡ s.failed)
  unfolding decide_rows sweep
  calm_loop address decision now start calm [] s = (refl, refl)
  calm_loop address decision now start calm (id ∷ ids) s =
      let step = step_at address decision now (e.get start id) in
      let f = λ (w : Workflow). new_row (step_of address decision now w) in
      let t = next_row step id s in
      let whole = calm_step address decision now start id ids s step refl (calm id) in
      let (rows, failed) = calm_loop address decision now start calm ids t in
      let (put, same_failed) = put_step step id s in
      (
        ap (λ (x : Decided e). x.matches) whole
            ∙ rows
            ∙ ap (λ db. sweep e start f db ids)
                (put
                  ∙ ap (λ o. put_some e s.matches id o)
                      (sym (read_step address decision now (e.get start id)))),
        ap (λ (x : Decided e). x.failed) whole ∙ failed ∙ same_failed,
      )

  -- Every match of the collection came about as a proposal.
  abbrev pub AllReached : W → Type 0
  AllReached db = (id : Text) (w : Workflow) → e.get db id ≡ some w → (i : Input) × Reached i w

  -- What a stop does with one match.
  abbrev pub Ends : Text → Stop → Workflow → Workflow → Type 0
  Ends address intent w v =
      ((concerns address w ≡ false) × (v ≡ w)) ⊎ ((concerns address w ≡ true) × IsEnded intent v)

  stop_step :
      (address : Text) (intent : Stop) (now : ℕ) (w : Workflow) (i : Input)
      → Reached i w
      → now ≤ max_date
      → IsCalm (step_of address (stop_decision intent) now w)
        × ((v : Workflow) × (or_else
                (new_row (step_of address (stop_decision intent) now w))
                (some w)
              ≡ some v)
            × Ends address intent w v)
  stop_step address intent now w i r valid = elim (Option-cases (lookup address w.previews)) [
    | inl n ↦ (ground (arith, n), (w, ground (arith, n), inl (ground (arith, n), refl)))
    | inr (p, f) ↦ elim (Bool-cases (accepts_decision w.state)) [
      | inr a ↦ (ground (arith, f, a), (w, ground (arith, f, a), inl (ground (arith, f, a), refl)))
      | inl a ↦
          let (v, h, ended) = IsEnded-match w address p intent now r f a valid in
          let step : step_of address (stop_decision intent) now w ≡ writes v =
            ground (arith, f, a, ap step_of_result h) in
          (
            subst IsCalm (sym step) tt,
            (v, ap (λ s. or_else (new_row s) (some w)) step, inr (ground (arith, f, a), ended)),
          )
    ]
  ]

  IsCalm-at :
      (address : Text) (intent : Stop) (now : ℕ) (db : W)
      → AllReached db
      → now ≤ max_date
      → (id : Text) → IsCalm (step_at address (stop_decision intent) now (e.get db id))
  IsCalm-at address intent now db all valid id = elim (Option-cases (e.get db id)) [
    | inl n ↦ subst (λ o. IsCalm (step_at address (stop_decision intent) now o)) (sym n) tt
    | inr (w, g) ↦
        subst (λ o. IsCalm (step_at address (stop_decision intent) now o)) (sym g)
          (stop_step address intent now w (all id w g).0 (all id w g).1 valid).0
  ]

  -- At a valid time a stop or a deletion throws for no match of the collection. Each match in which the
  -- member was shown a preview, and in which decisions are still taken, has ended with it: it is not
  -- released, and no sequence of calls changes it. Every other match is as it was.
  pub cancel_pending_for-Ends :
      (address : Text) (intent : Stop) (now : ℕ) (db : W) (id : Text) (w : Workflow)
      → AllReached db
      → now ≤ max_date
      → e.get db id ≡ some w
      → ((cancel_pending_for e address intent now db).failed ≡ none)
        × ((v : Workflow) × (e.get (cancel_pending_for e address intent now db).matches id ≡ some v)
            × Ends address intent w v)
  unfolding cancel_pending_for
  cancel_pending_for-Ends address intent now db id w all valid g =
      let f = λ (x : Workflow). new_row (step_of address (stop_decision intent) now x) in
      let (rows, failed) =
        calm_loop address (stop_decision intent) now db (IsCalm-at address intent now db all valid)
          (e.ids db) (undecided e db) in
      let (v, written, ends) =
        (stop_step address intent now w (all id w g).0 (all id w g).1 valid).1 in
      (
        failed,
        (
          v,
          ap (λ x. e.get x id) rows
              ∙ get-sweep e db f id
              ∙ ap (λ o. or_else (read_by e o f) o) g
              ∙ written,
          ends,
        ),
      )
