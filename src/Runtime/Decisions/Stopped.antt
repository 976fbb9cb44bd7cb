-- ===== src/Runtime/Decisions/Stopped.antt =====
-- Stop means stop.
use yente.Prelude.{
  Text, ℕ, ◌≤◌, ◌≡◌, sym, ap, subst, ◌∙◌, true, false, none, some, same_refl, ok, arith,
  Result-cases, inl, inr, max_date,
}
use yente.Domain.Member.{Member, can_receive_outbound, stop_member, delete_member}
use yente.Domain.Workflow.{Workflow}
use yente.Store.Cells.{Engine}
use yente.Store.Keys.{member_key}
use yente.Runtime.Decisions.{
  Stop, stop, delete, ended, Desk, after_save, after_end, end_existing, end_by_key, receive_stop,
  match_failure,
}
use yente.Runtime.Decisions.Cancelled.{AllReached, Ends, cancel_pending_for-Ends}

live_ends :
    (m : Member) (intent : Stop) (now : ℕ)
    → can_receive_outbound m ≡ true
    → now ≤ max_date
    → (n : Member) × (ended intent m now ≡ ok n)
      × (can_receive_outbound n ≡ false)
      × (n.address ≡ m.address)
unfolding can_receive_outbound stop_member delete_member
live_ends m stop now live valid = elim (Result-cases (ended stop m now)) [
  | inl (n, h) ↦ (n, h, ground (arith, h), ground (arith, h))
  | inr (x, h) ↦ absurd (ground (arith, h))
]
live_ends m delete now live valid = elim (Result-cases (ended delete m now)) [
  | inl (n, h) ↦ (n, h, ground (arith, h), ground (arith, h))
  | inr (x, h) ↦ absurd (ground (arith, h))
]

module _ {P W : Type 0} (people : Engine Member P) (e : Engine Workflow W)
    (digest : Text → Text) where
  stopped_desk :
      (address : Text) (intent : Stop) (now : ℕ) (s : Desk people e digest) (id : Text)
      (m n : Member)
      → member_key digest address ≡ ok id
      → people.get s.members id ≡ some m
      → ended intent m now ≡ ok n
      → member_key digest n.address ≡ ok id
      → receive_stop people e digest address intent now s
        ≡ after_save people e digest address intent now n (ok id) s
  unfolding receive_stop
  stopped_desk address intent now s id m n key stored h own =
      ap (λ k. end_by_key people e digest address intent now k s) key
      ∙ ap (λ o. end_existing people e digest address intent now o s) stored
      ∙ ap (λ r. after_end people e digest address intent now r s) h
      ∙ ap (λ k. after_save people e digest address intent now n k s) own

  -- A member who may be written to, and who writes to stop or to be deleted at a valid time, is stored as
  -- one who may not be written to, and no error stops that. Each match in which the member was shown a
  -- preview, and in which decisions are still taken, has ended: it is not released, and no sequence of
  -- calls changes it. Every other match is as it was.
  pub receive_stop-Ends :
      (address : Text) (intent : Stop) (now : ℕ) (s : Desk people e digest) (id : Text) (m : Member)
      (match_id : Text) (w : Workflow)
      → member_key digest address ≡ ok id
      → people.get s.members id ≡ some m
      → member_key digest m.address ≡ ok id
      → can_receive_outbound m ≡ true
      → AllReached e s.matches
      → e.get s.matches match_id ≡ some w
      → now ≤ max_date
      → ((receive_stop people e digest address intent now s).failed ≡ none)
        × ((n : Member) × (people.get (receive_stop people e digest address intent now s).members id
              ≡ some n)
            × (can_receive_outbound n ≡ false))
        × ((v : Workflow) × (e.get
                (receive_stop people e digest address intent now s).matches
                match_id
              ≡ some v)
            × Ends e address intent w v)
  receive_stop-Ends address intent now s id m match_id w key stored own live all g valid =
      let (n, h, suppressed, same_address) = live_ends m intent now live valid in
      let own_key = ap (λ a. member_key digest a) same_address ∙ own in
      let whole = stopped_desk address intent now s id m n key stored h own_key in
      let (failed, cancelled) =
        cancel_pending_for-Ends e address intent now s.matches match_id w all valid g in
      let D = λ (d : Desk people e digest).
        (d.failed ≡ none)
        × ((x : Member) × (people.get d.members id ≡ some x) × (can_receive_outbound x ≡ false))
        × ((v : Workflow) × (e.get d.matches match_id ≡ some v) × Ends e address intent w v) in
      subst D (sym whole) (
        ap (match_failure people e digest) failed,
        (n, people.get-put s.members id id n ∙ ground (arith, same_refl id), suppressed),
        cancelled,
      )
