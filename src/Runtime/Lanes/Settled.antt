-- ===== src/Runtime/Lanes/Settled.antt =====
-- What every pool that is reached keeps, and what a shutdown leaves.
use yente.Prelude.{
  Text, ℕ, zero, suc, ◌+◌, ◌<◌, ◌≡◌, refl, sym, ap, subst, ◌∙◌, inl, inr, true, false, ◌&&◌, Option,
  none, some, is_some, List, [], ◌∷◌, ◌++◌, arith, ltb, Option-cases, Bool-cases,
}
use mathlib.Core.List.{append_assoc}
use yente.Runtime.Lanes.{
  Pool, Task, find, assign, forget, spawn, pump, on_exit, reject_crashed, without_worker, respawn,
  crashed, dispatch, reject_all, begin_shutdown, end_shutdown, spawn_all, create_lanes, no_lanes,
}
use yente.Runtime.Lanes.Counts.{
  count, keys, values, ids, one, count-append, keys-append, find-count, count-assign, count-forget,
  count-drop_number, ids-append, keys-reject_all,
}
use yente.Runtime.Lanes.Runs.{
  Event, dispatches, answers, exits, shuts_down, workers_ended, after, Happens, Reached, created,
  next,
}
use yente.Runtime.Lanes.Sound.{before, before-suc, tasks, Phase, IsSound, Phase-at}
use yente.Runtime.Lanes.Preserved.{
  IsPumped, pump-IsSound, runs_pending, answered, answered-IsSound, on_message-IsSound,
  spawn-IsSound, length-append_one,
}

module _ {ℓ} {V : Type ℓ} where
  forget_twice : (k : ℕ) (m : List (ℕ × V)) → forget k (forget k m) ≡ forget k m
  unfolding forget
  forget_twice k [] = refl
  forget_twice k ((j, v) ∷ m) = ground (arith, forget_twice k m)

  find-forget : (k : ℕ) (m : List (ℕ × V)) → find k (forget k m) ≡ none
  unfolding find forget
  find-forget k [] = refl
  find-forget k ((j, v) ∷ m) = ground (arith, find-forget k m)

module _ (size : ℕ) where
  abbrev pub Holds : Pool → Type 0
  Holds s = IsSound size s × IsPumped size s

  stopped-IsSound :
      (s : Pool) (w : ℕ)
      → IsSound size s
      → s.shutting_down ≡ true
      → IsSound size (without_worker w s)
  stopped-IsSound s w h stop = record {
    positive = h.positive;
    accounted = h.accounted;
    distinct = λ v. ground (arith, h.distinct v, count-drop_number v w s.lanes);
    known = λ v le. ground (arith, h.known v le, count-drop_number v w s.lanes);
    live = λ v. ground (arith, h.live v, count-forget v w s.busy, count-drop_number v w s.lanes);
    phase = subst (λ b. Phase b size (without_worker w s)) (sym stop) (Phase-at size true s h stop);
  }

  -- The pool in which a worker that ended has been replaced.
  replaced : ℕ → Pool → Pool
  replaced w s = pump (spawn (without_worker w s))

  replaced-Holds :
      (s : Pool) (w : ℕ)
      → IsSound size s
      → s.shutting_down ≡ false
      → 0 < count w s.lanes
      → find w s.busy ≡ none
      → Holds (replaced w s)
  unfolding replaced spawn
  replaced-Holds s w h run alive f =
      pump-IsSound size (spawn (without_worker w s)) (spawn-IsSound size s w h run alive f) run

  reject_of :
      (s : Pool) (w id : ℕ)
      → find w s.busy ≡ some id
      → is_some (find id s.pending) ≡ true
      → reject_crashed (find w s.busy) (without_worker w s)
        ≡ without_worker w (answered size w id crashed s)
  reject_of s w id f p = ground (arith, forget_twice w s.busy)

  respawn_running : (s : Pool) → s.shutting_down ≡ false → respawn s ≡ pump (spawn s)
  respawn_running s run = ground arith

  is_pending :
      (s : Pool) (w id : ℕ)
      → IsSound size s
      → s.shutting_down ≡ false
      → find w s.busy ≡ some id
      → is_some (find id s.pending) ≡ true
  is_pending s w id h run f =
      ground (arith, (runs_pending size s w id h run f).0, find-count id s.pending)

  on_exit-running :
      (s : Pool) (w : ℕ)
      → IsSound size s
      → s.shutting_down ≡ false
      → 0 < count w s.lanes
      → Holds (on_exit w s)
  unfolding on_exit replaced
  on_exit-running s w h run alive = elim (Option-cases (find w s.busy)) [
    | inl f ↦
        subst Holds
          (sym (
            ap (λ o. respawn (reject_crashed o (without_worker w s))) f
            ∙ respawn_running (without_worker w s) run))
          (replaced-Holds s w h run alive f)
    | inr (id, f) ↦
        subst Holds
          (sym (
            ap respawn (reject_of s w id f (is_pending s w id h run f))
            ∙ respawn_running (without_worker w (answered size w id crashed s)) run))
          (replaced-Holds (answered size w id crashed s) w
            (answered-IsSound size s w id crashed h run f) run alive (find-forget w s.busy))
  ]

  no_more_rejected : (s : Pool) (o : Option ℕ) → s.pending ≡ [] → reject_crashed o s ≡ s
  unfolding find
  no_more_rejected s none e = refl
  no_more_rejected s (some id) e = ground (arith, ap (λ m. find id m) e)

  on_exit-stopped :
      (s : Pool) (w : ℕ) → IsSound size s → s.shutting_down ≡ true → Holds (on_exit w s)
  unfolding on_exit
  on_exit-stopped s w h stop =
      let (nothing, none_waits) = Phase-at size true s h stop in
      subst Holds
        (sym (
          ap respawn (no_more_rejected (without_worker w s) (find w s.busy) nothing)
          ∙ ground arith))
        (stopped-IsSound s w h stop, inl none_waits)

  -- A task is taken on.
  taken_on : Text → Text → Option Text → Pool → Pool
  taken_on kind payload meta s = record s {
    next_id = suc s.next_id;
    pending = assign s.next_id meta s.pending;
    waiting = s.waiting ++ record { id = s.next_id; kind = kind; payload = payload } ∷ [];
  }

  taken_on-IsSound :
      (s : Pool) (kind payload : Text) (meta : Option Text)
      → IsSound size s
      → s.shutting_down ≡ false
      → IsSound size (taken_on kind payload meta s)
  unfolding taken_on ids count
  taken_on-IsSound s kind payload meta h run =
      let (placed, full, order) = Phase-at size false s h run in
      let task : Task = record { id = s.next_id; kind = kind; payload = payload } in
      let new : count s.next_id (keys s.pending) ≡ 0 = ground (arith, h.accounted s.next_id) in
      record {
        positive = ground arith;
        accounted = λ n.
            ground (arith, h.accounted n, h.positive, new, count-assign n s.next_id meta s.pending);
        distinct = h.distinct;
        known = h.known;
        live = h.live;
        phase =
            subst (λ b. Phase b size (taken_on kind payload meta s)) (sym run)
              (
                (λ n. ground (
                  arith,
                  placed n,
                  new,
                  count-assign n s.next_id meta s.pending,
                  ap (λ l. count n l) (ids-append s.waiting (task ∷ [])),
                  count-append n (ids s.waiting) (s.next_id ∷ []),
                )),
                full,
                ap (λ l. ids (tasks s.posted) ++ l) (ids-append s.waiting (task ∷ []))
                    ∙ sym (append_assoc (ids (tasks s.posted)) (ids s.waiting) (s.next_id ∷ []))
                    ∙ ap (λ l. l ++ s.next_id ∷ []) order
                    ∙ sym (before-suc s.next_id h.positive),
              );
      }

  dispatch-Holds :
      (s : Pool) (kind payload : Text) (meta : Option Text)
      → Holds s
      → Holds (dispatch kind payload meta s).0
  unfolding dispatch taken_on
  dispatch-Holds s kind payload meta (h, p) = elim (Bool-cases s.shutting_down) [
    | inl stop ↦ subst Holds (ground (arith, stop)) (h, p)
    | inr run ↦ subst Holds (ground (arith, run)) (
        pump-IsSound size (taken_on kind payload meta s)
          (taken_on-IsSound s kind payload meta h run) run)
  ]

  -- A shutdown settles what is pending.
  begin_shutdown-IsSound : (s : Pool) → IsSound size s → IsSound size (begin_shutdown s)
  unfolding begin_shutdown keys count
  begin_shutdown-IsSound s h = record {
    positive = h.positive;
    accounted = λ n. ground (
      arith,
      h.accounted n,
      ap (λ l. count n l) (keys-append s.settled (reject_all s.pending)),
      count-append n (keys s.settled) (keys (reject_all s.pending)),
      ap (λ l. count n l) (keys-reject_all s.pending),
    );
    distinct = h.distinct;
    known = h.known;
    live = h.live;
    phase = (refl, refl);
  }

  end_shutdown-IsSound :
      (s : Pool) → IsSound size s → s.shutting_down ≡ true → IsSound size (end_shutdown s)
  unfolding end_shutdown keys count
  end_shutdown-IsSound s h stop = record {
    positive = h.positive;
    accounted = h.accounted;
    distinct = λ v. omega arith;
    known = λ v le. refl;
    live = λ v. omega arith;
    phase = subst (λ b. Phase b size (end_shutdown s)) (sym stop) (Phase-at size true s h stop);
  }

  after-Holds : (e : Event) (s : Pool) → Holds s → Happens e s → Holds (after e s)
  unfolding after begin_shutdown end_shutdown
  after-Holds (dispatches kind payload meta) s h k = dispatch-Holds s kind payload meta h
  after-Holds (answers w id o) s (h, p) f = on_message-IsSound size s w id o h p f
  after-Holds (exits w) s (h, p) alive = elim (Bool-cases s.shutting_down) [
    | inl stop ↦ on_exit-stopped s w h stop
    | inr run ↦ on_exit-running s w h run alive
  ]
  after-Holds shuts_down s (h, p) k = (begin_shutdown-IsSound s h, inl refl)
  after-Holds workers_ended s (h, p) stop =
      (end_shutdown-IsSound s h stop, inl (Phase-at size true s h stop).1)

grown-IsSound :
    (k : ℕ) (s : Pool) → IsSound k s → s.shutting_down ≡ false → IsSound (suc k) (spawn s)
unfolding spawn count
grown-IsSound k s h run =
    let (placed, full, order) = Phase-at k false s h run in
    record {
      positive = h.positive;
      accounted = h.accounted;
      distinct =
          λ v. ground (arith, h.distinct v, h.known v, count-append v s.lanes (s.next_worker ∷ []));
      known = λ v le. ground (arith, h.known v, count-append v s.lanes (s.next_worker ∷ []));
      live = λ v. ground (arith, h.live v, count-append v s.lanes (s.next_worker ∷ []));
      phase =
          subst (λ b. Phase b (suc k) (spawn s)) (sym run)
            (placed, ground (arith, length-append_one s.lanes s.next_worker), order);
    }

spawn_all-IsSound :
    (n k : ℕ) (s : Pool)
    → IsSound k s
    → s.shutting_down ≡ false
    → s.waiting ≡ []
    → IsSound (k + n) (spawn_all n s) × ((spawn_all n s).waiting ≡ [])
unfolding spawn_all spawn
spawn_all-IsSound zero k s h run e = (subst (λ m. IsSound m s) (omega arith) h, e)
spawn_all-IsSound (suc n) k s h run e =
    let (sound, none_waits) =
      spawn_all-IsSound n (suc k) (spawn s) (grown-IsSound k s h run) run e in
    (subst (λ m. IsSound m (spawn_all n (spawn s))) (omega arith) sound, none_waits)

no_lanes-IsSound : IsSound 0 no_lanes
unfolding keys count values ids before tasks
no_lanes-IsSound = record {
  positive = omega arith;
  accounted = λ n. ground arith;
  distinct = λ w. omega arith;
  known = λ w le. refl;
  live = λ w. omega arith;
  phase = ((λ n. refl), refl, refl);
}

created-Holds : (size : ℕ) (s : Pool) → create_lanes size ≡ some s → Holds size s
unfolding create_lanes
created-Holds size s e =
    let (sound, none_waits) = spawn_all-IsSound size 0 no_lanes no_lanes-IsSound refl refl in
    subst (Holds size) (ground arith)
      (subst (λ m. IsSound m (spawn_all size no_lanes)) (omega arith) sound, inl none_waits)

-- Of every pool that is reached, by whatever calls, answers, crashes and respawns: each accepted task is
-- pending or settled, once and never again; while the pool runs, a pending task waits or is with one
-- live worker, there are as many workers as asked for, tasks are posted in the order of their
-- arrival, and none waits while a worker is idle; when it shuts down, none is pending.
pub Reached-IsSound : (size : ℕ) (s : Pool) → Reached size s → IsSound size s × IsPumped size s
Reached-IsSound size s (created e) = created-Holds size s e
Reached-IsSound size s (next {s = t} e r h) = after-Holds size e t (Reached-IsSound size t r) h

-- Once a reached pool shuts down, every task that it ever accepted has been settled exactly once.
pub shutdown_settles_all :
    (size : ℕ) (s : Pool) (n : ℕ)
    → Reached size s
    → s.shutting_down ≡ true
    → count n (keys s.settled) ≡ one (ltb 0 n && ltb n s.next_id)
unfolding keys count
shutdown_settles_all size s n r stop =
    let h = (Reached-IsSound size s r).0 in
    ground (arith, h.accounted n, ap (λ m. count n (keys m)) (Phase-at size true s h stop).0)
