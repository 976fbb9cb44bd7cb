-- ===== src/Runtime/Deadlines/Released.antt =====
-- A match that the sweep releases was authorised, and neither side has stopped.
use yente.Prelude.{
  Text, ℕ, ◌≡◌, refl, sym, ap, subst, ◌∙◌, Bool, true, false, Option, none, some, List, [], ◌∷◌,
  same, Result, ok, err, ◌>>=◌, bind_ok, if◌then◌else◌, arith, Bool-cases, Option-cases,
  Result-cases, inl, inr, ◌⊎◌,
}
use yente.Domain.Workflow.{
  Workflow, Preview, State, Input, introduction_queued, ready_to_introduce, advance_veto_deadline,
  queue_introduction,
}
use yente.Domain.Workflow
use yente.Domain.Workflow.Runs.{Reached, advances, queues_introduction, call, next}
use yente.Domain.Workflow.Invariant.{Authorised}
use yente.Domain.Workflow.Safety.{is_released, released-Authorised}
use yente.Store.Keys.{joint_introduction}
use yente.Store.Keys
use yente.Store.Outbox.{Letter}
use yente.Runtime.Decisions.Cancelled.{AllReached}
use yente.Runtime.Desk.{Stores, Error}
use yente.Runtime.Deadlines.{
  is_waiting, is_ready, ids_of, as_match, cleared, some_stopped, if_live, release, Sweep,
  after_queue, send_letter, after_release, at_row, sweep_rows, advance_deadlines,
}

as_match-ok : (m : Result Workflow.Error Workflow) (w : Workflow) → as_match m ≡ ok w → m ≡ ok w
as_match-ok (ok v) w h = ground arith
as_match-ok (err e) w h = absurd (ground arith)

cleared-Reached :
    {i : Input} (row w : Workflow) (now : ℕ) → Reached i row → cleared row now ≡ ok w → Reached i w
unfolding call
cleared-Reached {i} row w now r h = elim (Bool-cases (is_waiting row.state)) [
  | inl e ↦
      next (advances now) r (as_match-ok (advance_veto_deadline row now) w (ground (arith, e, h)))
  | inr n ↦ let same_row : row ≡ w = ground (arith, n, h) in subst (Reached i) same_row r
]

queued_match :
    {i : Input} (v w : Workflow) (now : ℕ)
    → Reached i v
    → is_ready v.state ≡ true
    → queue_introduction v now ≡ ok w
    → Reached i w × (w.state ≡ introduction_queued) × (w.previews ≡ v.previews)
unfolding call queue_introduction
queued_match v w now r e h =
    (next (queues_introduction now) r h, ground (arith, e, h), ground (arith, e, h))

module _ {O P W M I : Type 0} (st : Stores O P W M I) (digest : Text → Text)
    (wording : Error → Text) (compose : Text → Workflow → Letter) where
  -- Its introduction is queued, as both sides were shown their previews in time and nobody objected, and
  -- none of its members has stopped.
  pub record IsReleased (people : P) (w : Workflow) : Type 0 where
    pub queued : w.state ≡ introduction_queued
    pub authorised : Authorised w
    pub live : some_stopped st digest wording compose people (ids_of w.previews) ≡ ok false

  if_live-ok :
      (v w : Workflow) (now : ℕ) (stopped : Bool)
      → if_live st digest wording compose v now stopped ≡ ok (some w)
      → (stopped ≡ false) × (queue_introduction v now ≡ ok w)
  if_live-ok v w now true h = absurd (ground arith)
  if_live-ok v w now false h = elim (Result-cases (queue_introduction v now)) [
    | inl (x, q) ↦ (refl, ground (arith, q, h))
    | inr (x, q) ↦ absurd (ground (arith, q, h))
  ]

  released :
      {i : Input} (people : P) (v w : Workflow) (now : ℕ) (stopped : Bool)
      → Reached i v
      → is_ready v.state ≡ true
      → some_stopped st digest wording compose people (ids_of v.previews) ≡ ok stopped
      → if_live st digest wording compose v now stopped ≡ ok (some w)
      → IsReleased people w
  released {i} people v w now stopped r e live h =
      let (running, write) = if_live-ok v w now stopped h in
      let (reached, queued, previews) = queued_match v w now r e write in
      record {
        queued = queued;
        authorised = released-Authorised w reached (ap is_released queued);
        live =
            ap (λ ps. some_stopped st digest wording compose people (ids_of ps)) previews
            ∙ live
            ∙ ap ok running;
      }

  abbrev if_ready : P → ℕ → Workflow → Bool → Result Error (Option Workflow)
  if_ready people now v b =
      if b
      then (some_stopped st digest wording compose people (ids_of v.previews)
          >>= if_live st digest wording compose v now)
      else ok none

  if_ready-IsReleased :
      {i : Input} (people : P) (v w : Workflow) (now : ℕ) (b : Bool)
      → Reached i v
      → is_ready v.state ≡ b
      → if_ready people now v b ≡ ok (some w)
      → IsReleased people w
  if_ready-IsReleased people v w now false r e h = absurd (ground arith)
  if_ready-IsReleased people v w now true r e h =
      bind_ok (some_stopped st digest wording compose people (ids_of v.previews))
        (if_live st digest wording compose v now) h
        λ stopped live g. released people v w now stopped r e live g

  release-IsReleased :
      {i : Input} (people : P) (now : ℕ) (row w : Workflow)
      → Reached i row
      → release st digest wording compose people now row ≡ ok (some w)
      → IsReleased people w
  unfolding release
  release-IsReleased people now row w r h =
      bind_ok (cleared row now) (λ v. if_ready people now v (is_ready v.state)) h
        λ v c g.
          if_ready-IsReleased people v w now (is_ready v.state) (cleared-Reached row v now r c) refl
            g

  -- Every match is as it was at first, or was released in between.
  abbrev pub IsKept : P → W → Sweep st digest wording compose → Type 0
  IsKept people start s =
      (id : Text) (w : Workflow)
      → st.matches.get s.matches id ≡ some w
      → (st.matches.get start id ≡ some w) ⊎ IsReleased people w

  after_queue-matches :
      (id : Text) (m : Result Error (O × Bool)) (s : Sweep st digest wording compose)
      → (after_queue st digest wording compose id m s).matches ≡ s.matches
  after_queue-matches id (ok x) s = refl
  after_queue-matches id (err e) s = refl

  send_letter-matches :
      (people : P) (now : ℕ) (id : Text) (row : Workflow) (key : Result Keys.Error Text)
      (s : Sweep st digest wording compose)
      → (send_letter st digest wording compose people now id row key s).matches ≡ s.matches
  send_letter-matches people now id row (err e) s = refl
  send_letter-matches people now id row (ok key) s = after_queue-matches id _ s

  put-IsKept :
      (people : P) (start : W) (id : Text) (w : Workflow) (s : Sweep st digest wording compose)
      → IsReleased people w
      → IsKept people start s
      → IsKept people start (record s { matches = st.matches.put s.matches id w })
  put-IsKept people start id w s h k j x g = elim (Bool-cases (same id j)) [
    | inl e ↦
        let here : some w ≡ some x =
          sym (st.matches.get-put s.matches id j w ∙ ground (arith, e)) ∙ g in
        inr (subst (λ o. IsReleased people (elim o [ none ↦ w | some y ↦ y ])) here h)
    | inr n ↦ k j x (sym (st.matches.get-put s.matches id j w ∙ ground (arith, n)) ∙ g)
  ]

  after_release-IsKept :
      (people : P) (now : ℕ) (start : W) (id : Text) (row : Workflow)
      (m : Result Error (Option Workflow)) (s : Sweep st digest wording compose)
      → ((w : Workflow) → m ≡ ok (some w) → IsReleased people w)
      → IsKept people start s
      → IsKept people start (after_release st digest wording compose people now id row m s)
  after_release-IsKept people now start id row (err e) s h k = k
  after_release-IsKept people now start id row (ok none) s h k = k
  after_release-IsKept people now start id row (ok (some w)) s h k = λ j x g.
      put-IsKept people start id w s (h w refl) k j x (
        ap (λ db. st.matches.get db j)
          (sym (
            send_letter-matches people now id row (joint_introduction digest id)
              (record s { matches = st.matches.put s.matches id w })))
        ∙ g)

  at_row-IsKept :
      (people : P) (now : ℕ) (start : W) (id : Text) (row : Option Workflow)
      (s : Sweep st digest wording compose)
      → st.matches.get start id ≡ row
      → AllReached st.matches start
      → IsKept people start s
      → IsKept people start (at_row st digest wording compose people now id row s)
  at_row-IsKept people now start id none s g all k = k
  at_row-IsKept people now start id (some row) s g all k =
      after_release-IsKept people now start id row
        (release st digest wording compose people now row) s
        (λ w h. release-IsReleased people now row w (all id row g).1 h) k

  sweep_rows-IsKept :
      (people : P) (now : ℕ) (start : W) (ids : List Text) (s : Sweep st digest wording compose)
      → AllReached st.matches start
      → IsKept people start s
      → IsKept people start (sweep_rows st digest wording compose people now start ids s)
  unfolding sweep_rows
  sweep_rows-IsKept people now start [] s all k = k
  sweep_rows-IsKept people now start (id ∷ ids) s all k =
      let t = at_row st digest wording compose people now id (st.matches.get start id) s in
      let M = λ (o : Option Error). IsKept people start (elim o [
        | some e ↦ s
        | none ↦ sweep_rows st digest wording compose people now start ids t
      ]) in
      elim (Option-cases s.failed) [
        | inr (e, f) ↦ subst M (sym f) k
        | inl f ↦ subst M (sym f) (
            sweep_rows-IsKept people now start ids t all
              (at_row-IsKept people now start id (st.matches.get start id) s refl all k))
      ]

  -- A sweep of the deadlines, whether or not an error ends it, leaves each match as it was, or queues its
  -- introduction; and that only if both previews were out a full window before the deadline, nobody
  -- objected, both approved or the window ran out, and neither member has stopped.
  pub advance_deadlines-IsReleased :
      (people : P) (now : ℕ) (matches : W) (outbox : O) (id : Text) (w : Workflow)
      → AllReached st.matches matches
      → st.matches.get
          (advance_deadlines st digest wording compose people now matches outbox).matches
          id
        ≡ some w
      → (st.matches.get matches id ≡ some w) ⊎ IsReleased people w
  unfolding advance_deadlines
  advance_deadlines-IsReleased people now matches outbox id w all g =
      sweep_rows-IsKept people now matches (st.matches.ids matches)
        (record { matches = matches; outbox = outbox; introduced = []; failed = none }) all
        (λ j x h. inl h) id w g
