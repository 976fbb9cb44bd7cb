-- ===== src/Runtime/Lanes/Preserved.antt =====
-- Every event keeps each task in one place.
use yente.Prelude.{
  Text, ℕ, suc, ◌+◌, ◌≤◌, ◌<◌, ◌≡◌, refl, sym, ap, subst, ◌∙◌, ◌⊎◌, inl, inr, true, false, ◌&&◌,
  Option, none, some, List, [], ◌∷◌, ◌++◌, arith, ◌==◌, ltb, length, Option-cases, Bool-cases,
}
use yente.Runtime.Lanes.{
  Pool, Task, Outcome, find, forget, drop_number, spawn, idle_lane, posted_to, pump_loop, pump,
  settle, on_message, without_worker,
}
use yente.Runtime.Lanes.Counts.{
  count, keys, values, ids, one, count-append, keys-append, count-assign, count-forget,
  count-drop_number, values-assign, values-forget, first_idle_free,
}
use yente.Runtime.Lanes.Sound.{tasks, Phase, IsSound, Phase-at, order_kept}

pub length-append_one : (l : List ℕ) (x : ℕ) → length (l ++ x ∷ []) ≡ suc (length l)
length-append_one [] x = refl
length-append_one (y ∷ l) x = ap suc (length-append_one l x)

length-drop_number : (w : ℕ) (l : List ℕ) → length (drop_number w l) + count w l ≡ length l
unfolding drop_number count
length-drop_number w [] = refl
length-drop_number w (y ∷ l) = ground (arith, length-drop_number w l)

module _ (size : ℕ) where
  -- An idle lane takes the first task that waits.
  pub posted_to-IsSound :
      (s : Pool) (w : ℕ) (t : Task) (rest : List Task)
      → IsSound size s
      → s.shutting_down ≡ false
      → s.waiting ≡ t ∷ rest
      → idle_lane s ≡ some w
      → IsSound size (posted_to w t rest s)
  unfolding idle_lane ids count
  posted_to-IsSound s w t rest h run e i =
      let (free, alive) = first_idle_free s.busy s.lanes w i in
      let (placed, full, order) = Phase-at size false s h run in
      record {
        positive = h.positive;
        accounted = h.accounted;
        distinct = h.distinct;
        known = h.known;
        live = λ v. ground (arith, count-assign v w t.id s.busy, h.live v, h.live w, h.distinct v);
        phase =
            subst (λ b. Phase b size (posted_to w t rest s)) (sym run)
              (
                (λ n.
                    ground (
                      arith,
                      placed n,
                      values-assign n w t.id s.busy,
                      ap (λ l. count n (ids l)) e,
                    )),
                full,
                order_kept s.posted w t rest
                    ∙ ap (λ l. ids (tasks s.posted) ++ ids l) (sym e)
                    ∙ order,
              );
      }

  -- What `pump` leaves: nothing waits, or no lane is idle.
  abbrev pub IsPumped : Pool → Type 0
  IsPumped s = (s.waiting ≡ []) ⊎ (idle_lane s ≡ none)

  abbrev AfterIdle : List Task → Task → Pool → Option ℕ → Type 0
  AfterIdle rest t s i =
      let next : Pool = elim i [
        | none ↦ s
        | some lane ↦ pump_loop rest (posted_to lane t rest s)
      ] in
      IsSound size next × IsPumped next

  pub pump_loop-IsSound :
      (ts : List Task) (s : Pool)
      → IsSound size s
      → s.shutting_down ≡ false
      → s.waiting ≡ ts
      → IsSound size (pump_loop ts s) × IsPumped (pump_loop ts s)
  unfolding pump_loop
  pump_loop-IsSound [] s h run e = (h, inl e)
  pump_loop-IsSound (t ∷ rest) s h run e = elim (Option-cases (idle_lane s)) [
    | inl i ↦ subst (AfterIdle rest t s) (sym i) (h, inr i)
    | inr (w, i) ↦ subst (AfterIdle rest t s) (sym i) (
        pump_loop-IsSound rest (posted_to w t rest s) (posted_to-IsSound s w t rest h run e i) run
          refl)
  ]

  pub pump-IsSound :
      (s : Pool)
      → IsSound size s
      → s.shutting_down ≡ false
      → IsSound size (pump s) × IsPumped (pump s)
  unfolding pump
  pump-IsSound s h run = pump_loop-IsSound s.waiting s h run refl

  -- A task that a worker runs is pending, once.
  pub runs_pending :
      (s : Pool) (w id : ℕ)
      → IsSound size s
      → s.shutting_down ≡ false
      → find w s.busy ≡ some id
      → (count id (keys s.pending) ≡ 1)
        × (count id (keys s.settled) ≡ 0)
        × ((n : ℕ) → count n (values (forget w s.busy)) + one (id == n) ≡ count n (values s.busy))
  runs_pending s w id h run f =
      let gone : (n : ℕ)
          → count n (values (forget w s.busy)) + one (id == n) ≡ count n (values s.busy) =
        λ n. ground (arith, values-forget n w s.busy, h.live w, h.distinct w) in
      let placed = (Phase-at size false s h run).0 in
      (
        ground (arith, placed id, gone id, h.accounted id),
        ground (arith, placed id, gone id, h.accounted id),
        gone,
      )

  live_after_forget :
      (s : Pool) (w v : ℕ) → IsSound size s → count v (keys (forget w s.busy)) ≤ count v s.lanes
  live_after_forget s w v h = ground (arith, count-forget v w s.busy, h.live v)

  settled_count :
      (s : Pool) (id n : ℕ) (o : Outcome)
      → count n (keys (s.settled ++ (id, o) ∷ [])) ≡ count n (keys s.settled) + one (id == n)
  unfolding keys count
  settled_count s id n o = ground (
    arith,
    ap (λ l. count n l) (keys-append s.settled ((id, o) ∷ [])),
    count-append n (keys s.settled) (id ∷ []),
  )

  -- A task is settled, and its worker let go.
  settle-accounted :
      (s : Pool) (id : ℕ) (o : Outcome)
      → IsSound size s
      → count id (keys s.pending) ≡ 1
      → count id (keys s.settled) ≡ 0
      → (n : ℕ)
      → count n (keys (forget id s.pending)) + count n (keys (s.settled ++ (id, o) ∷ []))
        ≡ one (ltb 0 n && ltb n s.next_id)
  settle-accounted s id o h p q n =
      ground (arith, h.accounted n, settled_count s id n o, count-forget n id s.pending)

  abbrev pub answered : ℕ → ℕ → Outcome → Pool → Pool
  answered w id o s = record (settle id o s) { busy = forget w s.busy }

  pub answered-IsSound :
      (s : Pool) (w id : ℕ) (o : Outcome)
      → IsSound size s
      → s.shutting_down ≡ false
      → find w s.busy ≡ some id
      → IsSound size (answered w id o s)
  answered-IsSound s w id o h run f =
      let (pending_one, settled_none, gone) = runs_pending s w id h run f in
      let (placed, full, order) = Phase-at size false s h run in
      record {
        positive = h.positive;
        accounted = settle-accounted s id o h pending_one settled_none;
        distinct = h.distinct;
        known = h.known;
        live = λ v. live_after_forget s w v h;
        phase =
            subst (λ b. Phase b size (answered w id o s)) (sym run)
              ((λ n. ground (arith, placed n, gone n, count-forget n id s.pending)), full, order);
      }

  abbrev AfterFound : ℕ → ℕ → Outcome → Pool → Option (Option Text) → Type 0
  AfterFound w id o s row =
      let t : Pool = elim row [ none ↦ s | some meta ↦ pump (answered w id o s) ] in
      IsSound size t × IsPumped t

  not_pending : (s : Pool) (id : ℕ) → s.pending ≡ [] → find id s.pending ≡ none
  unfolding find
  not_pending s id e = ap (λ m. find id m) e

  pub on_message-IsSound :
      (s : Pool) (w id : ℕ) (o : Outcome)
      → IsSound size s
      → IsPumped s
      → find w s.busy ≡ some id
      → IsSound size (on_message w id o s) × IsPumped (on_message w id o s)
  unfolding on_message
  on_message-IsSound s w id o h p f = elim (Option-cases (find id s.pending)) [
    | inl e ↦ subst (AfterFound w id o s) (sym e) (h, p)
    | inr (meta, e) ↦ elim (Bool-cases s.shutting_down) [
      | inl b ↦ absurd (ground (arith, not_pending s id (Phase-at size true s h b).0))
      | inr b ↦
          subst (AfterFound w id o s) (sym e)
            (pump-IsSound (answered w id o s) (answered-IsSound s w id o h b f) b)
    ]
  ]

  -- A worker ends while the pool runs: its task is settled if it had one, and a new worker comes.
  pub spawn-IsSound :
      (s : Pool) (w : ℕ)
      → IsSound size s
      → s.shutting_down ≡ false
      → 0 < count w s.lanes
      → find w s.busy ≡ none
      → IsSound size (spawn (without_worker w s))
  unfolding spawn count
  spawn-IsSound s w h run alive f =
      let (placed, full, order) = Phase-at size false s h run in
      record {
        positive = h.positive;
        accounted = h.accounted;
        distinct = λ v. ground (
          arith,
          h.distinct v,
          h.known v,
          count-append v (drop_number w s.lanes) (s.next_worker ∷ []),
          count-drop_number v w s.lanes,
        );
        known = λ v le. ground (
          arith,
          h.known v,
          count-append v (drop_number w s.lanes) (s.next_worker ∷ []),
          count-drop_number v w s.lanes,
        );
        live = λ v. ground (
          arith,
          h.live v,
          count-forget v w s.busy,
          count-append v (drop_number w s.lanes) (s.next_worker ∷ []),
          count-drop_number v w s.lanes,
        );
        phase =
            subst (λ b. Phase b size (spawn (without_worker w s))) (sym run)
              (
                (λ n. ground (arith, placed n, values-forget n w s.busy, h.live w, h.distinct w)),
                ground (
                  arith,
                  full,
                  length-drop_number w s.lanes,
                  h.distinct w,
                  length-append_one (drop_number w s.lanes) s.next_worker,
                ),
                order,
              );
      }
