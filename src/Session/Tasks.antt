-- ===== src/Session/Tasks.antt =====
-- daemon/src/ipc/session.rs: the steps of the tasks, and with them every step, keep the invariant of
-- `Tidy`.
use netdiag.Prelude.{
  ℕ, ◌≡◌, refl, sym, ap, subst, ◌⊎◌, inl, inr, Bool, true, false, Option, none, some, List, ◌∷◌,
  arith, ◌==◌, ◌!=◌, Bool-cases, Option-cases, find, All, All-filter, All-find,
}
use netdiag.Session.Model.{Error, StreamOutcome, Stage, Task, State}
use netdiag.Session.Registry.{abort}
use netdiag.Session.Serve.{
  Event, reads_on, register, answer, send_item, end_task, remove_task, on_task, step,
}
use netdiag.Session.Tracked.{
  is_streaming, is_stream, Tracked, Apart, AllApart-filter, Tracked-remove,
}
use netdiag.Session.Tidy.{
  Pending, UsesIds, IsTidy, Pending-filter, UsesIds-filter, closed-filter, abort-IsTidy,
}
use netdiag.Session.Spawned.{AllApart-cons, insert-IsTidy}
use netdiag.Session.Fresh.{event_ids, FreshEvent, event-IsTidy, receive-IsTidy}

module _ (used : List ℕ) where
  register-IsTidy :
      (o : Option Task) (s : State) → s.inserting ≡ o → IsTidy used s → IsTidy used (register o s)
  register-IsTidy none s e h = h
  register-IsTidy (some p) s e h = insert-IsTidy used p s e h

  answer-IsTidy :
      (stage : Stage) (task : Task) (e : Option Error) (s : State)
      → IsTidy used s
      → IsTidy used (answer stage task e s)
  answer-IsTidy (Stage.answering call) task none s h = abort-IsTidy used task.handle s h
  answer-IsTidy (Stage.answering call) task (some e) s h = abort-IsTidy used task.handle s h
  answer-IsTidy (Stage.running call) task e s h = h
  answer-IsTidy Stage.ended task e s h = h

  send_item-IsTidy :
      (stage : Stage) (id : ℕ) (s : State) → IsTidy used s → IsTidy used (send_item stage id s)
  send_item-IsTidy (Stage.answering call) id s h = h
  send_item-IsTidy (Stage.running call) id s h = h
  send_item-IsTidy Stage.ended id s h = h

  abbrev PendingApart : Option Task → Task → Type 0
  PendingApart none t = Unit
  PendingApart (some p) t = Apart p t

  -- The task that steps is one of the live tasks.
  abbrev KnownTask : State → Task → Type 0
  KnownTask s t =
      Tracked s.streams s.inserting t
      × All (Apart t) s.tasks
      × PendingApart s.inserting t
      × UsesIds used t
      × ((s.reading ≡ true) ⊎ (is_stream t ≡ false))

  remove_task-IsTidy :
      (stage : Stage) (t : Task) (s : State)
      → t.stage ≡ stage
      → KnownTask s t
      → IsTidy used s
      → IsTidy used (remove_task stage t s)
  remove_task-IsTidy (Stage.answering call) t s e k h = h
  remove_task-IsTidy (Stage.running call) t s e k h = h
  remove_task-IsTidy Stage.ended t s e (known, mine, apart_p, id, live)
        (tracked, apart, pending, ids, lives) =
      (
        Tracked-remove s.streams s.tasks s.inserting t (ap is_streaming e) mine tracked,
        AllApart-filter s.streams s.tasks (λ u. u.handle != t.handle) apart,
        Pending-filter s.inserting (λ u. u.handle != t.handle) s.tasks pending,
        UsesIds-filter used s.reading (λ u. u.handle != t.handle) s.tasks ids,
        closed-filter used s.reading (λ u. u.handle != t.handle) s.tasks lives,
      )

  ended-Pending :
      (t : Task) (o : Option Task) (tasks : List Task)
      → is_stream t ≡ true
      → PendingApart o t
      → Pending o tasks
      → Pending o (record t { stage = Stage.ended } ∷ tasks)
  ended-Pending t none tasks e k h = tt
  ended-Pending t (some p) tasks e k (stream, h) = (stream, (ground (arith, k, e), h))

  ended_live :
      (t u : Task) (reading : Bool) (tasks : List Task)
      → is_stream t ≡ true
      → (reading ≡ true) ⊎ (is_stream t ≡ false)
      → (reading ≡ true) ⊎ All (λ t. is_stream t ≡ false) tasks
      → (reading ≡ true) ⊎ All (λ t. is_stream t ≡ false) (u ∷ tasks)
  ended_live t u reading tasks stream (inl on) h = inl on
  ended_live t u reading tasks stream (inr plain) h = absurd (ground (arith, stream, plain))

  end_task-IsTidy :
      (stage : Stage) (t : Task) (o : StreamOutcome) (s : State)
      → t.stage ≡ stage
      → KnownTask s t
      → IsTidy used s
      → IsTidy used (end_task stage t o s)
  end_task-IsTidy (Stage.answering call) t o s e k h = h
  end_task-IsTidy Stage.ended t o s e k h = h
  end_task-IsTidy (Stage.running call) t o s e (known, mine, apart_p, id, live) h =
      let stream : is_stream t ≡ true = ap is_streaming e in
      let (tracked, apart, pending, ids, lives) = abort-IsTidy used t.handle s h in
      let t' : Task = record { handle = t.handle; id = t.id; stage = Stage.ended } in
      (
        (ground (arith, known, stream), tracked),
        AllApart-cons t' (abort t.handle s.tasks)
            (All-filter (Apart t) (Apart t') (λ u. u.handle != t.handle) s.tasks
              (λ u k a. ground (arith, a, stream)) mine)
            apart,
        ended-Pending t s.inserting (abort t.handle s.tasks) stream apart_p pending,
        (ground (arith, id, stream), ids),
        ended_live t t' s.reading (abort t.handle s.tasks) stream live lives,
      )

  known_task :
      (handle : ℕ) (s : State) (t : Task)
      → find (λ t. t.handle == handle) s.tasks ≡ some t
      → IsTidy used s
      → KnownTask s t
  known_task handle s t found (tracked, apart, pending, ids, live) =
      let at = λ (u : Task). u.handle == handle in
      (
        All-find (Tracked s.streams s.inserting) at s.tasks t found tracked,
        All-find (λ u. All (Apart u) s.tasks) at s.tasks t found apart,
        known_pending s.inserting pending,
        All-find (UsesIds used) at s.tasks t found ids,
        known_live live,
      )
    where
      known_pending : (o : Option Task) → Pending o s.tasks → PendingApart o t
      known_pending none h = tt
      known_pending (some p) (stream, h) =
          All-find (Apart p) (λ u. u.handle == handle) s.tasks t found h

      known_live :
          (s.reading ≡ true) ⊎ All (λ t. is_stream t ≡ false) s.tasks
          → (s.reading ≡ true) ⊎ (is_stream t ≡ false)
      known_live (inl on) = inl on
      known_live (inr quiet) =
          inr (All-find (λ t. is_stream t ≡ false) (λ u. u.handle == handle) s.tasks t found quiet)

  on_task-IsTidy :
      (f : Task → State → State) (handle : ℕ) (s : State)
      → ((t : Task) → KnownTask s t → IsTidy used (f t s))
      → IsTidy used s
      → IsTidy used (on_task f handle s)
  on_task-IsTidy f handle s hf h = elim (Option-cases (find (λ t. t.handle == handle) s.tasks)) [
    | inl gone ↦ subst (λ o. IsTidy used (elim o [ none ↦ s | some t ↦ f t s ])) (sym gone) h
    | inr (t, found) ↦
        subst (λ o. IsTidy used (elim o [ none ↦ s | some t ↦ f t s ])) (sym found)
          (hf t (known_task handle s t found h))
  ]

  idle_reads :
      (reading : Bool) (o : Option Task) → reads_on reading o ≡ true → (reading ≡ true) × (o ≡ none)
  idle_reads reading none h = (h, refl)
  idle_reads reading (some p) h = cc

  pub step-IsTidy :
      (e : Event) (s : State)
      → FreshEvent used e
      → IsTidy used s
      → IsTidy (event_ids e used) (step e s)
  unfolding step
  step-IsTidy (Event.read r stopped) s fresh h =
      elim (Bool-cases (reads_on s.reading s.inserting)) [
        | inl on ↦
            let (reading, idle) = idle_reads s.reading s.inserting on in
            rw on (receive-IsTidy used r stopped s reading idle fresh h)
        | inr off ↦ rw off (event-IsTidy used (Event.read r stopped) s h)
      ]
  step-IsTidy Event.registered s fresh h = register-IsTidy s.inserting s refl h
  step-IsTidy (Event.sends handle) s fresh h =
      on_task-IsTidy (λ t. send_item t.stage t.id) handle s
        (λ t k. send_item-IsTidy t.stage t.id s h) h
  step-IsTidy (Event.ends handle o) s fresh h =
      on_task-IsTidy (λ t. end_task t.stage t o) handle s
        (λ t k. end_task-IsTidy t.stage t o s refl k h) h
  step-IsTidy (Event.removes handle) s fresh h =
      on_task-IsTidy (λ t. remove_task t.stage t) handle s
        (λ t k. remove_task-IsTidy t.stage t s refl k h) h
  step-IsTidy (Event.answers handle e) s fresh h =
      on_task-IsTidy (λ t. answer t.stage t e) handle s (λ t k. answer-IsTidy t.stage t e s h) h
