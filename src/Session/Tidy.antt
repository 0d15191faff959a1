-- ===== src/Session/Tidy.antt =====
-- daemon/src/ipc/session.rs: the invariant of the registry and the stream tasks, which each step of
-- a client keeps that does not use a call id twice.
use netdiag.Prelude.{
  ℕ, ◌≡◌, refl, sym, subst, ◌⊎◌, inl, inr, Bool, true, false, not, ◌||◌, Option, none, some, List,
  map, arith, ◌!=◌, Bool-cases, filter, All, All-map, All-filter, contains,
}
use netdiag.Session.Model.{Task, State, set_tasks}
use netdiag.Session.Registry.{lookup, remove, cancel, cancel_found, abort_all, abort}
use netdiag.Session.Serve.{after_cancel, after_stop, finish}
use netdiag.Session.Tracked.{
  is_stream, Tracked, Apart, AllApart, AllApart-filter, Tracked-cancel, none_left,
}

abbrev pub Pending : Option Task → List Task → Type 0
Pending none tasks = Unit
Pending (some p) tasks = (is_stream p ≡ true) × All (Apart p) tasks

abbrev pub UsesIds : List ℕ → Task → Type 0
UsesIds used t = (not (is_stream t) || contains used t.id) ≡ true

-- `used` are the ids of the streaming calls so far.
abbrev pub IsTidy : List ℕ → State → Type 0
IsTidy used s =
    All (Tracked s.streams s.inserting) s.tasks
    × AllApart s.tasks
    × Pending s.inserting s.tasks
    × All (UsesIds used) s.tasks
    × ((s.reading ≡ true) ⊎ All (λ t. is_stream t ≡ false) s.tasks)

pub Pending-filter :
    (o : Option Task) (p : Task → Bool) (tasks : List Task)
    → Pending o tasks
    → Pending o (filter p tasks)
Pending-filter none p tasks h = tt
Pending-filter (some t) p tasks (stream, h) =
    (stream, All-filter (Apart t) (Apart t) p tasks (λ u k a. a) h)

-- The conditions that the registry has no part in, where tasks are aborted.
module _ (used : List ℕ) (reading : Bool) (p : Task → Bool) (tasks : List Task) where
  pub UsesIds-filter : All (UsesIds used) tasks → All (UsesIds used) (filter p tasks)
  UsesIds-filter = All-filter (UsesIds used) (UsesIds used) p tasks (λ t k h. h)

  pub closed-filter :
      (reading ≡ true) ⊎ All (λ t. is_stream t ≡ false) tasks
      → (reading ≡ true) ⊎ All (λ t. is_stream t ≡ false) (filter p tasks)
  closed-filter (inl h) = inl h
  closed-filter (inr h) =
      inr (All-filter (λ t. is_stream t ≡ false) (λ t. is_stream t ≡ false) p tasks (λ t k g. g) h)

module _ (used : List ℕ) where
  pub abort-IsTidy :
      (handle : ℕ) (s : State) → IsTidy used s → IsTidy used (set_tasks (abort handle s.tasks) s)
  abort-IsTidy handle s (tracked, apart, pending, ids, live) = (
    All-filter (Tracked s.streams s.inserting) (Tracked s.streams s.inserting)
        (λ t. t.handle != handle) s.tasks (λ t k h. h) tracked,
    AllApart-filter s.streams s.tasks (λ t. t.handle != handle) apart,
    Pending-filter s.inserting (λ t. t.handle != handle) s.tasks pending,
    UsesIds-filter used s.reading (λ t. t.handle != handle) s.tasks ids,
    closed-filter used s.reading (λ t. t.handle != handle) s.tasks live,
  )

  cancel_found-IsTidy :
      (o : Option ℕ) (id : ℕ) (s : State)
      → lookup id s.streams ≡ o
      → s.inserting ≡ none
      → IsTidy used s
      → IsTidy used (cancel_found o id s).1
  cancel_found-IsTidy none id s e idle h = h
  cancel_found-IsTidy (some handle) id s e idle (tracked, apart, pending, ids, live) = (
    subst (λ o. All (Tracked (remove id s.streams) o) (abort handle s.tasks)) (sym idle)
        (Tracked-cancel s.streams s.tasks id handle e (rw idle at tracked)),
    AllApart-filter s.streams s.tasks (λ t. t.handle != handle) apart,
    Pending-filter s.inserting (λ t. t.handle != handle) s.tasks pending,
    UsesIds-filter used s.reading (λ t. t.handle != handle) s.tasks ids,
    closed-filter used s.reading (λ t. t.handle != handle) s.tasks live,
  )

  pub cancel-IsTidy :
      (id : ℕ) (s : State) → s.inserting ≡ none → IsTidy used s → IsTidy used (cancel id s).1
  unfolding cancel
  cancel-IsTidy id s idle h = cancel_found-IsTidy (lookup id s.streams) id s refl idle h

  pub after_cancel-IsTidy :
      (id target : ℕ) (r : Bool × State) → IsTidy used r.1 → IsTidy used (after_cancel id target r)
  after_cancel-IsTidy id target (true, s) h = h
  after_cancel-IsTidy id target (false, s) h = h

  pub after_stop-IsTidy :
      (id capture_id : ℕ) (stopped : Bool) (r : Bool × State)
      → IsTidy used r.1
      → IsTidy used (after_stop id capture_id stopped r)
  after_stop-IsTidy id capture_id stopped (was_active, s) h =
      elim (Bool-cases (was_active || stopped)) [
        | inl gone ↦ rw gone h
        | inr unknown ↦ rw unknown h
      ]

  pub finish-IsTidy : (s : State) → s.inserting ≡ none → IsTidy used s → IsTidy used (finish s)
  unfolding abort_all
  finish-IsTidy s idle (tracked, apart, pending, ids, live) =
      let kept = λ (t : Task). not (contains (map (λ e. e.1) s.streams) t.handle) in
      let quiet = none_left s.streams s.tasks (rw idle at tracked) in
      (
        All-map (λ t. is_stream t ≡ false) (filter kept s.tasks) (λ t h. ground (arith, h)) quiet,
        AllApart-filter s.streams s.tasks kept apart,
        Pending-filter s.inserting kept s.tasks pending,
        UsesIds-filter used s.reading kept s.tasks ids,
        inr quiet,
      )
