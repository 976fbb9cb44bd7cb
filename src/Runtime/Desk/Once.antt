-- ===== src/Runtime/Desk/Once.antt =====
-- Whatever is queued and however often the outbox is drained, the transport takes each letter once.
use yente.Prelude.{
  Text, ℕ, ◌≤◌, ◌≡◌, sym, ap, subst, ◌∙◌, false, Option, none, some, List, [], ◌∷◌, same, same_iff,
  same_refl, arith, Bool-cases, Option-cases, inl, inr, ◌⊎◌, Result, ok, err,
}
use yente.Domain.Outbox.{Job, sent, begin_send}
use yente.Store.Cells.Order.{AllRows, AllRows-map}
use yente.Store.Cells.Sums.{IsDistinct}
use yente.Store.Outbox.{
  Row, Letter, Context, Enqueued, key_of, enqueue, enqueue_at, is_sent, claimable,
}
use yente.Store.Outbox.Line.{IsClaimable, claimable_lem}
use yente.Runtime.Desk.{
  Stores, Reply, Desk, send_one, send_all, drain_rows, drain_outbox, queue, all_live, store_letter,
  stored_new,
}
use yente.Runtime.Desk
use yente.Store.Outbox as Rows
use yente.Runtime.Desk.Copies.{copies, row_ids, claimable_once}
use yente.Runtime.Desk.Sending.{IsQuiet}
use yente.Runtime.Desk.Delivering.{IsDelivered, Advances, send_one-Advances}

pub startable_unsent :
    (j : Job) (now : ℕ) (k : Job) → begin_send j now ≡ ok k → is_sent j.state ≡ false
unfolding begin_send
startable_unsent j now k h = ground arith

module _ {O P W M I : Type 0} (st : Stores O P W M I) (digest : Text → Text)
    (wording : Desk.Error → Text) where
  -- The letter of a row was taken never, or once, and then the row is sent. Every row stands under its key.
  pub record IsOnce (s : Desk st digest wording) : Type 0 where
    pub once :
        (k : Text)
        → (copies k s.taken ≡ 0)
          ⊎ ((copies k s.taken ≡ 1)
              × ((r : Row) × (st.outbox.get s.outbox k ≡ some r) × (r.job.state ≡ sent)))
    pub keyed :
        (k : Text) (r : Row) → st.outbox.get s.outbox k ≡ some r → key_of st.outbox digest r ≡ ok k

  abbrev OnceAt : Text → List Text → Option Row → Type 0
  OnceAt k taken row =
      (copies k taken ≡ 0)
      ⊎ ((copies k taken ≡ 1) × ((r : Row) × (row ≡ some r) × (r.job.state ≡ sent)))

  -- A row that a drain is about to take up.
  abbrev IsReady : Desk st digest wording → Text × Row → Type 0
  IsReady s a = (st.outbox.get s.outbox a.0 ≡ some a.1) × (is_sent a.1.job.state ≡ false)

  none_taken :
      (s : Desk st digest wording) (id : Text) (r : Row)
      → IsOnce s
      → IsReady s (id, r)
      → copies id s.taken ≡ 0
  none_taken s id r h (g, unsent) = elim (h.once id) [
    | inl z ↦ z
    | inr (o, (x, f, final)) ↦ absurd (ground (arith, unsent, final, sym g ∙ f))
  ]

  quiet-IsOnce :
      (id : Text) (r : Row) (s t : Desk st digest wording)
      → IsOnce s
      → IsReady s (id, r)
      → IsQuiet st digest wording id s t
      → IsOnce t
  quiet-IsOnce id r s t h ready q = record {
    once = λ k. elim (Bool-cases (same id k)) [
      | inl e ↦ inl (
          ap (λ l. copies k l) q.taken_same
          ∙ subst (λ j. copies j s.taken ≡ 0) ((same_iff id k).0 e) (none_taken s id r h ready))
      | inr n ↦
          subst (λ l. OnceAt k l (st.outbox.get t.outbox k)) (sym q.taken_same)
            (subst (OnceAt k s.taken) (sym (q.elsewhere k n)) (h.once k))
    ];
    keyed = λ k x g. elim (Bool-cases (same id k)) [
      | inl e ↦
          let at : id ≡ k = (same_iff id k).0 e in
          q.keyed x (ap (λ j. st.outbox.get t.outbox j) at ∙ g) ∙ ap ok at
      | inr n ↦ h.keyed k x (sym (q.elsewhere k n) ∙ g)
    ];
  }

  first_copy : (k : Text) (l : List Text) → copies k l ≡ 0 → copies k (k ∷ l) ≡ 1
  unfolding copies
  first_copy k l h = ground (arith, same_refl k)

  other_copy : (id k : Text) (l : List Text) → same id k ≡ false → copies k (id ∷ l) ≡ copies k l
  unfolding copies
  other_copy id k l h = ground (arith, h)

  delivered-IsOnce :
      (id : Text) (r : Row) (s t : Desk st digest wording)
      → IsOnce s
      → IsReady s (id, r)
      → IsDelivered st digest wording id s t
      → IsOnce t
  delivered-IsOnce id r s t h ready d = record {
    once = λ k. elim (Bool-cases (same id k)) [
      | inl e ↦
          subst (λ j. OnceAt j t.taken (st.outbox.get t.outbox j)) ((same_iff id k).0 e)
            (inr (
              ap (λ l. copies id l) d.taken_more
                  ∙ first_copy id s.taken (none_taken s id r h ready),
              (d.row, d.stored, d.is_final),
            ))
      | inr n ↦
          subst (λ l. OnceAt k l (st.outbox.get t.outbox k)) (sym d.taken_more)
            (subst
              (λ m.
                (m ≡ 0)
                ⊎ ((m ≡ 1)
                    × ((x : Row) × (st.outbox.get t.outbox k ≡ some x) × (x.job.state ≡ sent))))
              (sym (other_copy id k s.taken n))
              (subst (OnceAt k s.taken) (sym (d.elsewhere k n)) (h.once k)))
    ];
    keyed = λ k x g. elim (Bool-cases (same id k)) [
      | inl e ↦
          let at : id ≡ k = (same_iff id k).0 e in
          let here = sym d.stored ∙ ap (λ j. st.outbox.get t.outbox j) at ∙ g in
          subst (λ o. key_of st.outbox digest (elim o [ none ↦ x | some y ↦ y ]) ≡ ok id) here
            d.keyed
          ∙ ap ok at
      | inr n ↦ h.keyed k x (sym (d.elsewhere k n) ∙ g)
    ];
  }

  advanced-IsOnce :
      (id : Text) (r : Row) (s t : Desk st digest wording)
      → IsOnce s
      → IsReady s (id, r)
      → Advances st digest wording id s t
      → IsOnce t
  advanced-IsOnce id r s t h ready (inl q) = quiet-IsOnce id r s t h ready q
  advanced-IsOnce id r s t h ready (inr d) = delivered-IsOnce id r s t h ready d

  pub advanced-elsewhere :
      (id k : Text) (s t : Desk st digest wording)
      → Advances st digest wording id s t
      → same id k ≡ false
      → st.outbox.get t.outbox k ≡ st.outbox.get s.outbox k
  advanced-elsewhere id k s t (inl q) n = q.elsewhere k n
  advanced-elsewhere id k s t (inr d) n = d.elsewhere k n

  -- The rows that are still to come are as they were.
  still-IsReady :
      (id : Text) (s t : Desk st digest wording)
      → Advances st digest wording id s t
      → (rest : List (Text × Row)) → copies id (row_ids rest) ≡ 0
      → AllRows (IsReady s) rest
      → AllRows (IsReady t) rest
  unfolding AllRows copies row_ids
  still-IsReady id s t a [] none_left h = tt
  still-IsReady id s t a (b ∷ rest) none_left ((g, unsent), h) =
      let apart : same id b.0 ≡ false = ground (arith, same_iff b.0 id, same_iff id b.0) in
      (
        (advanced-elsewhere id b.0 s t a apart ∙ g, unsent),
        still-IsReady id s t a rest (ground arith) h,
      )

  pub head_once :
      (id : Text) (r : Row) (rest : List (Text × Row))
      → ((k : Text) → copies k (row_ids ((id, r) ∷ rest)) ≤ 1)
      → (copies id (row_ids rest) ≡ 0) × ((k : Text) → copies k (row_ids rest) ≤ 1)
  unfolding copies row_ids
  head_once id r rest h = (ground (arith, h id, same_refl id), λ k. ground (arith, h k))

  send_all-IsOnce :
      (rows : List (Text × Row)) (now : ℕ) (transport : Row → Reply) (s : Desk st digest wording)
      → ((k : Text) → copies k (row_ids rows) ≤ 1)
      → AllRows (IsReady s) rows
      → IsOnce s
      → IsOnce (send_all st digest wording rows now transport s)
  unfolding send_all AllRows
  send_all-IsOnce [] now transport s apart ready h = h
  send_all-IsOnce ((id, r) ∷ rest) now transport s apart ((g, unsent), ready) h =
      let t = send_one st digest wording id r now transport s in
      let step =
        send_one-Advances st digest wording id r now transport s g (h.keyed id r g) unsent in
      let (last, others) = head_once id r rest apart in
      let after =
        send_all-IsOnce rest now transport t others (still-IsReady id s t step rest last ready)
          (advanced-IsOnce id r s t h (g, unsent) step) in
      elim (Option-cases s.failed) [
        | inr (e, f) ↦
            subst
              (λ o.
                IsOnce
                  (elim o [ some x ↦ s | none ↦ send_all st digest wording rest now transport t ]))
              (sym f) h
        | inl f ↦
            subst
              (λ o.
                IsOnce
                  (elim o [ some x ↦ s | none ↦ send_all st digest wording rest now transport t ]))
              (sym f) after
      ]

  pub fresh-IsOnce :
      (s : Desk st digest wording) (failed : Option Desk.Error)
      → IsOnce s
      → IsOnce (record s { sent = 0; failed = failed })
  fresh-IsOnce s failed h = record { once = h.once; keyed = h.keyed }

  pub drain_rows-IsOnce :
      ((db : O) → IsDistinct (st.outbox.ids db))
      → (now : ℕ) (transport : Row → Reply) (s : Desk st digest wording)
        (m : Result Rows.Error (List (Text × Row)))
      → claimable st.outbox digest s.outbox now 50 ≡ m
      → IsOnce s
      → IsOnce (drain_rows st digest wording m now transport (record s { sent = 0; failed = none }))
  drain_rows-IsOnce distinct now transport s (err e) c h =
      fresh-IsOnce s (some (Desk.not_saved e)) h
  drain_rows-IsOnce distinct now transport s (ok rows) c h =
      let fresh = record s { sent = 0; failed = none } in
      let (few, ordered, ready) = claimable_lem st.outbox digest s.outbox now 50 rows c in
      send_all-IsOnce rows now transport fresh
        (λ k. claimable_once k st.outbox s.outbox digest now 50 rows (distinct s.outbox) c)
        (AllRows-map (IsClaimable st.outbox digest s.outbox now) (IsReady fresh)
          (λ a p.
            let (j, begins, f) = p.begins in (p.stored, startable_unsent a.1.job now j begins))
          rows ready)
        (fresh-IsOnce s none h)
