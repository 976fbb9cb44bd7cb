-- ===== src/Waitlist/Inbound/Kept.antt =====
-- A message changes no subscriber that is there.
use yente.Prelude.{
  Text, ◌≡◌, refl, ap, subst, ◌∙◌, Option, none, some, same, same_iff, arith, Result, ok, err,
  bind_ok, Bool-cases, inl, inr, passed_test,
}
use yente.Store.Cells.{Engine}
use yente.Waitlist.Repository.{
  Record, Draw, Error, claimed_record, Waitlist, claim_inbound, claim_new, claimed, is_full,
  capacity_full, subscriber_id, normalize_email, check_cohort,
}
use yente.Waitlist.Inbound.{Message, cohort_from_inbound, claim_for, claim_seat_from_inbound}

module _ {Db : Type 0} (e : Engine Record Db) (digest : Text → Text) where
  abbrev result_of : Waitlist e digest → Result Error (Waitlist e digest) → Waitlist e digest
  result_of w (ok x) = x
  result_of w (err x) = w

  new_row_apart :
      (email own : Text) (d : Draw) (w : Waitlist e digest) (id : Text) (r : Record)
      → e.get w.subscribers (subscriber_id e digest email) ≡ none
      → e.get w.subscribers id ≡ some r
      → e.get (claimed e digest email own d w).subscribers id ≡ some r
  new_row_apart email own d w id r g k =
      elim (Bool-cases (same (subscriber_id e digest email) id)) [
        | inl s ↦ absurd (
            ground (
              arith,
              ap (λ j. e.get w.subscribers j) ((same_iff (subscriber_id e digest email) id).0 s),
              k,
              g,
            ))
        | inr s ↦
            e.get-put w.subscribers (subscriber_id e digest email) id (claimed_record email own d)
            ∙ ground (arith, s, k)
      ]

  claim_new_kept :
      (row : Option Record) (email own : Text) (d : Draw) (w w' : Waitlist e digest) (id : Text)
      (r : Record)
      → e.get w.subscribers (subscriber_id e digest email) ≡ row
      → claim_new e digest row email own d w ≡ ok w'
      → e.get w.subscribers id ≡ some r
      → e.get w'.subscribers id ≡ some r
  claim_new_kept (some old) email own d w w' id r g h k =
      subst (λ x. e.get x.subscribers id ≡ some r) (ap (result_of w) h) k
  claim_new_kept none email own d w w' id r g h k =
      passed_test (is_full e digest w.subscribers own none) (capacity_full own)
        (ok (claimed e digest email own d w)) h
        λ room h₁.
          subst (λ x. e.get x.subscribers id ≡ some r) (ap (result_of w) h₁)
            (new_row_apart email own d w id r g k)

  claim_inbound_kept :
      (raw_email raw_cohort : Text) (d : Draw) (w w' : Waitlist e digest) (id : Text) (r : Record)
      → claim_inbound e digest raw_email raw_cohort d w ≡ ok w'
      → e.get w.subscribers id ≡ some r
      → e.get w'.subscribers id ≡ some r
  unfolding claim_inbound
  claim_inbound_kept raw_email raw_cohort d w w' id r h k =
      bind_ok (normalize_email raw_email) _ h λ email g₁ h₁.
        bind_ok (check_cohort raw_cohort) _ h₁ λ own g₂ h₂.
          claim_new_kept (e.get w.subscribers (subscriber_id e digest email)) email own d w w' id r
            refl h₂ k

  claim_for_kept :
      (from cohort : Option Text) (d : Draw) (w w' : Waitlist e digest) (id : Text) (r : Record)
      → claim_for e digest from cohort d w ≡ some (ok w')
      → e.get w.subscribers id ≡ some r
      → e.get w'.subscribers id ≡ some r
  claim_for_kept none cohort d w w' id r h k = absurd (ground arith)
  claim_for_kept (some email) none d w w' id r h k = absurd (ground arith)
  claim_for_kept (some email) (some own) d w w' id r h k =
      claim_inbound_kept email own d w w' id r (ground arith) k

  -- A message that claims a seat changes no subscriber that is there already: not its cohort, nor its
  -- status.
  pub claim_seat_from_inbound_kept :
      (m : Message) (d : Draw) (w w' : Waitlist e digest) (id : Text) (r : Record)
      → claim_seat_from_inbound e digest m d w ≡ some (ok w')
      → e.get w.subscribers id ≡ some r
      → e.get w'.subscribers id ≡ some r
  unfolding claim_seat_from_inbound
  claim_seat_from_inbound_kept m d w w' id r h k =
      claim_for_kept m.from (cohort_from_inbound m) d w w' id r h k
