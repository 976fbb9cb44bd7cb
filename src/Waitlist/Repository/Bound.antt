-- ===== src/Waitlist/Repository/Bound.antt =====
-- No cohort ever has more seats than its limit, and a claim by email changes no row that is there.
use yente.Prelude.{
  Text, ℕ, ◌+◌, ◌≤◌, ◌<◌, ◌≡◌, refl, sym, ap, subst, ◌∙◌, false, not, Option, none, some, List, [],
  ◌∷◌, same, same_iff, leb, arith, Result, ok, err, bind_ok, passed_test, throw_if, ◌>>◌,
  Result-cases, Bool-cases, inl, inr,
}
use yente.Store.Cells.{Engine}
use yente.Store.Cells.Sums.{sum, IsDistinct, drop_text_of, sum-put}
use yente.Waitlist.Capacity.{cohort_limit}
use yente.Waitlist.Repository.{
  Record, EventType, Error, Waitlist, Subscription, Draw, seat_of, active_in_cohort, subscriber_id,
  subscribe, claim_inbound, write_both, subscribed_record, claimed_record, subscription_type,
  normalize_email, normalize_name, normalize_intent, founding_seat_claimed_by_email, check_cohort,
  claim_new, is_full, subscribed, claimed, capacity_full, consent_required,
}

module _ {Db : Type 0} (e : Engine Record Db) (distinct : (db : Db) → IsDistinct (e.ids db))
    (digest : Text → Text) where
  -- The seats of a cohort.
  abbrev pub seats : Text → Waitlist e digest → ℕ
  seats cohort w = active_in_cohort e digest w.subscribers cohort none (e.ids w.subscribers)

  abbrev seat_at : Text → Db → Text → ℕ
  seat_at cohort db id = seat_of cohort (e.get db id)

  active_sum :
      (db : Db) (cohort : Text) (ids : List Text)
      → active_in_cohort e digest db cohort none ids ≡ sum (seat_at cohort db) ids
  unfolding active_in_cohort sum
  active_sum db cohort [] = refl
  active_sum db cohort (id ∷ ids) = ground (arith, active_sum db cohort ids)

  active_others :
      (db : Db) (cohort id : Text) (ids : List Text)
      → active_in_cohort e digest db cohort (some id) ids
        ≡ sum (seat_at cohort db) (drop_text_of id ids)
  unfolding active_in_cohort sum drop_text_of
  active_others db cohort id [] = refl
  active_others db cohort id (j ∷ ids) = ground (arith, active_others db cohort id ids)

  fewer_others :
      (db : Db) (cohort id : Text) (ids : List Text)
      → sum (seat_at cohort db) (drop_text_of id ids) ≤ sum (seat_at cohort db) ids
  unfolding sum drop_text_of
  fewer_others db cohort id [] = omega arith
  fewer_others db cohort id (j ∷ ids) = ground (arith, fewer_others db cohort id ids)

  -- A row of one cohort is written where that cohort has room beside it.
  written_in_bound :
      (w : Waitlist e digest) (id : Text) (r : Record) (type : EventType) (d : Draw) (cohort : Text)
      → active_in_cohort e digest w.subscribers r.cohort (some id) (e.ids w.subscribers)
        < cohort_limit
      → seats cohort w ≤ cohort_limit
      → seats cohort (write_both e digest id r type d w) ≤ cohort_limit
  written_in_bound w id r type d cohort room bound = elim (Bool-cases (same r.cohort cohort)) [
    | inl own ↦
        let here : r.cohort ≡ cohort = (same_iff r.cohort cohort).0 own in
        ground (
          arith,
          sums,
          active_others w.subscribers cohort id (e.ids w.subscribers),
          subst
              (λ c.
                active_in_cohort e digest w.subscribers c (some id) (e.ids w.subscribers)
                < cohort_limit)
              here room,
        )
    | inr other ↦ ground (
      arith,
      sums,
      active_sum w.subscribers cohort (e.ids w.subscribers),
      fewer_others w.subscribers cohort id (e.ids w.subscribers),
    )
  ]
    where
      sums :
          seats cohort (write_both e digest id r type d w)
          ≡ seat_of cohort (some r)
            + sum (seat_at cohort w.subscribers) (drop_text_of id (e.ids w.subscribers))
      sums =
          active_sum (e.put w.subscribers id r) cohort (e.ids (e.put w.subscribers id r))
          ∙ sum-put e distinct (seat_of cohort) w.subscribers id r

  -- A throw leaves the collections as they were.
  abbrev pub kept_in : Waitlist e digest → Result Error (Waitlist e digest) → Waitlist e digest
  kept_in w (ok x) = x
  kept_in w (err x) = w

  under_limit : (n : ℕ) → leb cohort_limit n ≡ false → n < cohort_limit
  under_limit n h = ground arith

  subscribe_in_bound :
      (input : Subscription) (d : Draw) (w w' : Waitlist e digest) (cohort : Text)
      → subscribe e digest input d w ≡ ok w'
      → seats cohort w ≤ cohort_limit
      → seats cohort w' ≤ cohort_limit
  unfolding subscribe
  subscribe_in_bound input d w w' cohort h bound =
      bind_ok (normalize_email input.email) _ h λ email g₁ h₁.
        bind_ok (normalize_name input.name) _ h₁ λ name g₂ h₂.
          bind_ok (normalize_intent input.intent) _ h₂ λ intent g₃ h₃.
            bind_ok (check_cohort input.cohort) _ h₃ λ own g₄ h₄.
              passed_test (not input.consent) consent_required
                (throw_if (is_full e digest w.subscribers own (some (subscriber_id e digest email)))
                    (capacity_full own)
                  >> ok (subscribed e digest email name intent own d w))
                h₄
                λ g₅ h₅.
                  passed_test
                    (is_full e digest w.subscribers own (some (subscriber_id e digest email)))
                    (capacity_full own) (ok (subscribed e digest email name intent own d w)) h₅
                    λ room h₆.
                      subst (λ x. seats cohort x ≤ cohort_limit) (ap (kept_in w) h₆)
                        (written_in_bound w (subscriber_id e digest email)
                          (subscribed_record email name intent own
                            (e.get w.subscribers (subscriber_id e digest email)) d)
                          (subscription_type (e.get w.subscribers (subscriber_id e digest email))) d
                          cohort (under_limit _ room) bound)

  -- Without a row under the id the count leaves nothing out.
  no_row :
      (w : Waitlist e digest) (own id : Text)
      → e.get w.subscribers id ≡ none
      → active_in_cohort e digest w.subscribers own none (e.ids w.subscribers) < cohort_limit
      → active_in_cohort e digest w.subscribers own (some id) (e.ids w.subscribers) < cohort_limit
  no_row w own id g room = ground (
    arith,
    room,
    active_sum w.subscribers own (e.ids w.subscribers),
    active_others w.subscribers own id (e.ids w.subscribers),
    fewer_others w.subscribers own id (e.ids w.subscribers),
  )

  claim_new_in_bound :
      (row : Option Record) (email own : Text) (d : Draw) (w w' : Waitlist e digest) (cohort : Text)
      → e.get w.subscribers (subscriber_id e digest email) ≡ row
      → claim_new e digest row email own d w ≡ ok w'
      → seats cohort w ≤ cohort_limit
      → seats cohort w' ≤ cohort_limit
  claim_new_in_bound (some r) email own d w w' cohort g h bound =
      subst (λ x. seats cohort x ≤ cohort_limit) (ap (kept_in w) h) bound
  claim_new_in_bound none email own d w w' cohort g h bound =
      passed_test (is_full e digest w.subscribers own none) (capacity_full own)
        (ok (claimed e digest email own d w)) h
        λ room h₁.
          subst (λ x. seats cohort x ≤ cohort_limit) (ap (kept_in w) h₁)
            (written_in_bound w (subscriber_id e digest email) (claimed_record email own d)
              founding_seat_claimed_by_email d cohort
              (no_row w own (subscriber_id e digest email) g (under_limit _ room)) bound)

  claim_inbound_in_bound :
      (raw_email raw_cohort : Text) (d : Draw) (w w' : Waitlist e digest) (cohort : Text)
      → claim_inbound e digest raw_email raw_cohort d w ≡ ok w'
      → seats cohort w ≤ cohort_limit
      → seats cohort w' ≤ cohort_limit
  unfolding claim_inbound
  claim_inbound_in_bound raw_email raw_cohort d w w' cohort h bound =
      bind_ok (normalize_email raw_email) _ h λ email g₁ h₁.
        bind_ok (check_cohort raw_cohort) _ h₁ λ own g₂ h₂.
          claim_new_in_bound (e.get w.subscribers (subscriber_id e digest email)) email own d w w'
            cohort refl h₂ bound

pub data Call : Type 0 where
  subscribes : Subscription → Draw → Call
  claims : Text → Text → Draw → Call

module _ {Db : Type 0} (e : Engine Record Db) (digest : Text → Text) where
  unfoldable pub call : Call → Waitlist e digest → Result Error (Waitlist e digest)
  call (subscribes input d) w = subscribe e digest input d w
  call (claims email cohort d) w = claim_inbound e digest email cohort d w

  abbrev pub kept : Waitlist e digest → Result Error (Waitlist e digest) → Waitlist e digest
  kept w (ok x) = x
  kept w (err x) = w

  unfoldable pub run : Waitlist e digest → List Call → Waitlist e digest
  run w [] = w
  run w (c ∷ cs) = run (kept w (call c w)) cs

module _ {Db : Type 0} (e : Engine Record Db) (distinct : (db : Db) → IsDistinct (e.ids db))
    (digest : Text → Text) where
  call_in_bound :
      (c : Call) (w w' : Waitlist e digest) (cohort : Text)
      → call e digest c w ≡ ok w'
      → seats e distinct digest cohort w ≤ cohort_limit
      → seats e distinct digest cohort w' ≤ cohort_limit
  unfolding call
  call_in_bound (subscribes input d) w w' cohort h bound =
      subscribe_in_bound e distinct digest input d w w' cohort h bound
  call_in_bound (claims email own d) w w' cohort h bound =
      claim_inbound_in_bound e distinct digest email own d w w' cohort h bound

  kept_in_bound :
      (c : Call) (w : Waitlist e digest) (cohort : Text)
      → seats e distinct digest cohort w ≤ cohort_limit
      → seats e distinct digest cohort (kept e digest w (call e digest c w)) ≤ cohort_limit
  kept_in_bound c w cohort bound = elim (Result-cases (call e digest c w)) [
    | inl (x, h) ↦
        subst (λ r. seats e distinct digest cohort (kept e digest w r) ≤ cohort_limit) (sym h)
          (call_in_bound c w x cohort h bound)
    | inr (x, h) ↦
        subst (λ r. seats e distinct digest cohort (kept e digest w r) ≤ cohort_limit) (sym h) bound
  ]

  -- If the engine returns each id once, no sequence of subscriptions and claims, whether or not some of
  -- them throw, takes a cohort above its 5,000 seats.
  pub run_in_bound :
      (cs : List Call) (w : Waitlist e digest) (cohort : Text)
      → seats e distinct digest cohort w ≤ cohort_limit
      → seats e distinct digest cohort (run e digest w cs) ≤ cohort_limit
  unfolding run
  run_in_bound [] w cohort bound = bound
  run_in_bound (c ∷ cs) w cohort bound =
      run_in_bound cs (kept e digest w (call e digest c w)) cohort (kept_in_bound c w cohort bound)
