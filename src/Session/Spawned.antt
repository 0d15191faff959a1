-- ===== src/Session/Spawned.antt =====
-- daemon/src/ipc/session.rs: spawning and registering a task keep the invariant of `Tidy`.
use netdiag.Prelude.{
  ℕ, ◌≡◌, refl, ap, subst, inl, inr, true, false, Option, none, some, List, [], ◌∷◌, arith, leb,
  ◌==◌, ◌!=◌, Bool-cases, length, All, All-map, contains,
}
use netdiag.Session.Model.{
  Stage, Task, State, Unary, Streaming, set_inserting, set_tasks, set_streams,
}
use netdiag.Session.Registry.{max_streams, lookup, put, insert, abort_previous}
use netdiag.Session.Serve.{register, spawn, spawn_stream}
use netdiag.Session.Tracked.{
  is_stream, Tracked, Apart, AllApart, AllApart-filter, Tracked-put, Tracked-refused,
}
use netdiag.Session.Tidy.{Pending, UsesIds, IsTidy, UsesIds-filter, closed-filter, abort-IsTidy}

pub AllApart-cons :
    (t : Task) (tasks : List Task) → All (Apart t) tasks → AllApart tasks → AllApart (t ∷ tasks)
AllApart-cons t tasks h hs = ((ground arith, h), others tasks h hs)
  where
    others :
        (us : List Task)
        → All (Apart t) us
        → All (λ u. All (Apart u) tasks) us
        → All (λ u. All (Apart u) (t ∷ tasks)) us
    others [] qs rs = tt
    others (u ∷ us) (q, qs) (r, rs) = ((ground (arith, q), r), others us qs rs)

fresh_id :
    (used : List ℕ) (id k : ℕ)
    → contains used id ≡ false
    → contains used k ≡ true
    → (id != k) ≡ true
fresh_id used id k h g = elim (Bool-cases (id == k)) [
  | inl same ↦
      let e : id ≡ k = ground (arith, same) in absurd (ground (arith, h, g, ap (contains used) e))
  | inr apart ↦ ground (arith, apart)
]

fresh-Apart :
    (used : List ℕ) (t : Task) (tasks : List Task)
    → contains used t.id ≡ false
    → All (UsesIds used) tasks
    → All (Apart t) tasks
fresh-Apart used t tasks h = All-map (UsesIds used) tasks (λ u g. elim (Bool-cases (is_stream u)) [
  | inl stream ↦ ground (arith, fresh_id used t.id u.id h (ground (arith, g, stream)))
  | inr plain ↦ ground (arith, plain)
])

module _ (used : List ℕ) where
  pub spawn_unary-IsTidy :
      (id : ℕ) (call : Unary) (s : State)
      → s.reading ≡ true
      → IsTidy used s
      → IsTidy used (spawn id (Stage.answering call) s)
  spawn_unary-IsTidy id call s on (tracked, apart, pending, ids, live) = (
    (refl, tracked),
    AllApart-cons (record { handle = s.next_handle; id = id; stage = Stage.answering call }) s.tasks
        (All-map (UsesIds used) s.tasks (λ u g. refl) ids) apart,
    pending_still s.inserting pending,
    (refl, ids),
    inl on,
  )
    where
      pending_still :
          (o : Option Task)
          → Pending o s.tasks
          → Pending o
              (record { handle = s.next_handle; id = id; stage = Stage.answering call } ∷ s.tasks)
      pending_still none h = tt
      pending_still (some p) (stream, h) = (stream, (ground arith, h))

  pub spawn_stream-IsTidy :
      (id : ℕ) (call : Streaming) (s : State)
      → s.reading ≡ true
      → s.inserting ≡ none
      → contains used id ≡ false
      → IsTidy used s
      → IsTidy (id ∷ used) (spawn_stream id call s)
  spawn_stream-IsTidy id call s on idle fresh (tracked, apart, pending, ids, live) =
      let t : Task = record { handle = s.next_handle; id = id; stage = Stage.running call } in
      let others = fresh-Apart used t s.tasks fresh ids in
      (
        (
          ground arith,
          All-map (Tracked s.streams none) s.tasks (λ u h. ground (arith, h)) (rw idle at tracked),
        ),
        AllApart-cons t s.tasks others apart,
        (refl, (ground arith, others)),
        (ground arith, All-map (UsesIds used) s.tasks (λ u h. ground (arith, h)) ids),
        inl on,
      )

  pub insert-IsTidy :
      (p : Task) (s : State)
      → s.inserting ≡ some p
      → IsTidy used s
      → IsTidy used (register (some p) s)
  unfolding insert
  insert-IsTidy p s busy (tracked, apart, pending, ids, live) =
      let (stream, others) = subst (λ o. Pending o s.tasks) busy pending in
      let tracked_p = subst (λ o. All (Tracked s.streams o) s.tasks) busy tracked in
      elim (Bool-cases (leb max_streams (length s.streams))) [
        | inl full ↦ rw full (
          Tracked-refused s.streams s.tasks p tracked_p,
          AllApart-filter s.streams s.tasks (λ t. t.handle != p.handle) apart,
          tt,
          UsesIds-filter used s.reading (λ t. t.handle != p.handle) s.tasks ids,
          closed-filter used s.reading (λ t. t.handle != p.handle) s.tasks live,
        )
        | inr free ↦ rw free (
            abort_previous_IsTidy (lookup p.id s.streams)
              (set_streams (put p.id p.handle s.streams) (set_inserting none s))
              (Tracked-put s.streams s.tasks p stream others tracked_p, apart, tt, ids, live))
      ]
    where
      abort_previous_IsTidy :
          (o : Option ℕ) (s : State)
          → IsTidy used s
          → IsTidy used (set_tasks (abort_previous o s.tasks) s)
      abort_previous_IsTidy none s h = h
      abort_previous_IsTidy (some handle) s h = abort-IsTidy used handle s h
