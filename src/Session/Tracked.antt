-- ===== src/Session/Tracked.antt =====
-- daemon/src/ipc/session.rs: the registry and the stream tasks, and what each step keeps of them.
use netdiag.Prelude.{
  ℕ, ◌≡◌, ap, ◌∙◌, inl, inr, Bool, true, false, not, ◌&&◌, ◌||◌, Option, none, some, List, [], ◌∷◌,
  map, arith, ◌==◌, ◌!=◌, if◌then◌else◌, Bool-cases, filter, All, All-map, All-filter, contains,
}
use netdiag.Session.Model.{Stage, Task}
use netdiag.Session.Registry.{lookup, put, remove, abort}

abbrev pub is_streaming : Stage → Bool
is_streaming (Stage.answering call) = false
is_streaming (Stage.running call) = true
is_streaming Stage.ended = true

abbrev pub is_stream : Task → Bool
is_stream t = is_streaming t.stage

abbrev is_some_of : Option ℕ → ℕ → Bool
is_some_of none handle = false
is_some_of (some h) handle = h == handle

abbrev pub is_task : Option Task → Task → Bool
is_task none t = false
is_task (some p) t = p.handle == t.handle && p.id == t.id

-- The registry has the task's handle under its id, or the task is about to be registered.
abbrev pub Tracked : List (ℕ × ℕ) → Option Task → Task → Type 0
Tracked streams inserting t =
    (not (is_stream t) || is_some_of (lookup t.id streams) t.handle || is_task inserting t) ≡ true

-- Two stream tasks of one id are one task.
abbrev pub Apart : Task → Task → Type 0
Apart t u =
    (not (is_stream t)
      || not (is_stream u)
      || (t.handle == u.handle && t.id == u.id)
      || t.id != u.id)
    ≡ true

abbrev pub AllApart : List Task → Type 0
AllApart tasks = All (λ t. All (Apart t) tasks) tasks

lookup-put :
    (k id handle : ℕ) (streams : List (ℕ × ℕ))
    → lookup k (put id handle streams) ≡ (if k == id then some handle else lookup k streams)
unfolding lookup put
lookup-put k id handle [] = ground arith
lookup-put k id handle ((key, old) ∷ streams) = ground (arith, lookup-put k id handle streams)

lookup-remove :
    (k id : ℕ) (streams : List (ℕ × ℕ))
    → lookup k (remove id streams) ≡ (if k == id then none else lookup k streams)
unfolding lookup
lookup-remove k id [] = ground arith
lookup-remove k id ((key, old) ∷ streams) = ground (arith, lookup-remove k id streams)

lookup-contains :
    (k handle : ℕ) (streams : List (ℕ × ℕ))
    → is_some_of (lookup k streams) handle ≡ true
    → contains (map (λ e. e.1) streams) handle ≡ true
unfolding lookup
lookup-contains k handle [] h = ground arith
lookup-contains k handle ((key, old) ∷ streams) h = elim (Bool-cases (key == k)) [
  | inl here ↦ ground (arith, here)
  | inr later ↦ rw (lookup-contains k handle streams (rw later at h)) (ground arith)
]

All-zip {ℓ κ ι} :
    {A : Type ℓ} (P : A → Type κ) (Q : A → Type ι) (xs : List A)
    → All P xs
    → All Q xs
    → All (λ a. P a × Q a) xs
All-zip P Q [] ps qs = tt
All-zip P Q (x ∷ xs) (p, ps) (q, qs) = ((p, q), All-zip P Q xs ps qs)

module _ (streams : List (ℕ × ℕ)) (tasks : List Task) where
  -- Aborting tasks leaves the rest tracked and apart.
  pub AllApart-filter : (p : Task → Bool) → AllApart tasks → AllApart (filter p tasks)
  AllApart-filter p hs =
      All-filter (λ t. All (Apart t) tasks) (λ t. All (Apart t) (filter p tasks)) p tasks
        (λ t kept h. All-filter (Apart t) (Apart t) p tasks (λ u k a. a) h) hs

  -- Cancelling the id of a registered handle: the task of this id is that of the handle.
  pub Tracked-cancel :
      (id handle : ℕ)
      → lookup id streams ≡ some handle
      → All (Tracked streams none) tasks
      → All (Tracked (remove id streams) none) (abort handle tasks)
  Tracked-cancel id handle found =
      All-filter (Tracked streams none) (Tracked (remove id streams) none) (λ t. t.handle != handle)
        tasks (λ t other h. cancelled t other h)
    where
      cancelled :
          (t : Task)
          → (t.handle != handle) ≡ true
          → Tracked streams none t
          → Tracked (remove id streams) none t
      cancelled t other h = elim (Bool-cases (t.id == id)) [
        | inl same ↦
            let e : t.id ≡ id = ground (arith, same) in
            let held = rw (ap (λ k. lookup k streams) e ∙ found) at h in
            rw (lookup-remove t.id id streams, same) (ground (arith, held, other))
        | inr apart ↦ rw (lookup-remove t.id id streams, apart) h
      ]

  -- A stream task that has ended removes its own id: the tasks of this id are that task.
  pub Tracked-remove :
      (inserting : Option Task) (t : Task)
      → is_stream t ≡ true
      → All (Apart t) tasks
      → All (Tracked streams inserting) tasks
      → All (Tracked (remove t.id streams) inserting) (abort t.handle tasks)
  Tracked-remove inserting t stream apart tracked =
      All-filter (λ u. Apart t u × Tracked streams inserting u)
        (Tracked (remove t.id streams) inserting) (λ u. u.handle != t.handle) tasks
        (λ u other h. left u other h.0 h.1)
        (All-zip (Apart t) (Tracked streams inserting) tasks apart tracked)
    where
      left :
          (u : Task)
          → (u.handle != t.handle) ≡ true
          → Apart t u
          → Tracked streams inserting u
          → Tracked (remove t.id streams) inserting u
      left u other h g = elim (Bool-cases (u.id == t.id)) [
        | inl same ↦ rw (lookup-remove u.id t.id streams, same) (ground (arith, other, h, stream))
        | inr differs ↦ rw (lookup-remove u.id t.id streams, differs) g
      ]

  -- Registering a task: it is tracked now, and no other task loses its entry to it.
  pub Tracked-put :
      (p : Task)
      → is_stream p ≡ true
      → All (Apart p) tasks
      → All (Tracked streams (some p)) tasks
      → All (Tracked (put p.id p.handle streams) none) tasks
  Tracked-put p stream apart tracked =
      All-map (λ u. Apart p u × Tracked streams (some p) u) tasks (λ u h. registered u h.0 h.1)
        (All-zip (Apart p) (Tracked streams (some p)) tasks apart tracked)
    where
      registered :
          (u : Task)
          → Apart p u
          → Tracked streams (some p) u
          → Tracked (put p.id p.handle streams) none u
      registered u h g = elim (Bool-cases (u.id == p.id)) [
        | inl same ↦ rw (lookup-put u.id p.id p.handle streams, same) (ground (arith, h, stream))
        | inr differs ↦
            rw (lookup-put u.id p.id p.handle streams, differs) (ground (arith, g, differs))
      ]

  -- A task that the full registry refuses is aborted.
  pub Tracked-refused :
      (p : Task)
      → All (Tracked streams (some p)) tasks
      → All (Tracked streams none) (abort p.handle tasks)
  Tracked-refused p =
      All-filter (Tracked streams (some p)) (Tracked streams none) (λ u. u.handle != p.handle) tasks
        (λ u other h. ground (arith, other, h))

  -- Where every stream task is registered, aborting all leaves none.
  pub none_left :
      All (Tracked streams none) tasks
      → All
          (λ t. is_stream t ≡ false)
          (filter (λ t. not (contains (map (λ e. e.1) streams) t.handle)) tasks)
  none_left tracked =
      All-filter (Tracked streams none) (λ t. is_stream t ≡ false)
        (λ t. not (contains (map (λ e. e.1) streams) t.handle)) tasks
        (λ t kept h. unregistered t kept h) tracked
    where
      unregistered :
          (t : Task)
          → not (contains (map (λ e. e.1) streams) t.handle) ≡ true
          → Tracked streams none t
          → is_stream t ≡ false
      unregistered t kept h = elim (Bool-cases (is_some_of (lookup t.id streams) t.handle)) [
        | inl held ↦ absurd (ground (arith, kept, lookup-contains t.id t.handle streams held))
        | inr lost ↦ ground (arith, h, lost)
      ]
