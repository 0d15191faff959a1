-- ===== src/Session/Registry.antt =====
-- daemon/src/ipc/session.rs: `StreamRegistry`, and what aborting a handle does to the tasks. The map
-- is an association list of call ids and handles.
use netdiag.Prelude.{
  ℕ, Bool, true, false, not, Option, none, some, List, [], ◌∷◌, map, leb, ◌==◌, ◌!=◌, if◌then◌else◌,
  length, filter, contains,
}
use netdiag.Session.Model.{ErrorCode, new_error, Task, State, set_streams, set_tasks, error}

abbrev pub max_streams : ℕ
max_streams = 16

unfoldable pub lookup : ℕ → List (ℕ × ℕ) → Option ℕ
lookup id [] = none
lookup id ((key, handle) ∷ streams) = if key == id then some handle else lookup id streams

-- `HashMap::insert`
unfoldable pub put : ℕ → ℕ → List (ℕ × ℕ) → List (ℕ × ℕ)
put id handle [] = (id, handle) ∷ []
put id handle ((key, old) ∷ streams) =
    if key == id then (id, handle) ∷ streams else (key, old) ∷ put id handle streams

-- `HashMap::remove`
abbrev pub remove : ℕ → List (ℕ × ℕ) → List (ℕ × ℕ)
remove id streams = filter (λ e. e.0 != id) streams

-- `AbortHandle::abort`: the task is gone.
abbrev pub abort : ℕ → List Task → List Task
abort handle tasks = filter (λ t. t.handle != handle) tasks

abbrev pub abort_previous : Option ℕ → List Task → List Task
abort_previous none tasks = tasks
abort_previous (some handle) tasks = abort handle tasks

-- `StreamRegistry::insert`, with what `spawn_stream` does where it fails.
unfoldable pub insert : Task → State → State
insert task s =
    if leb max_streams (length s.streams)
    then error task.id
        (new_error ErrorCode.resource_exhausted "too many concurrent streams (limit 16)")
        (set_tasks (abort task.handle s.tasks) s)
    else set_tasks (abort_previous (lookup task.id s.streams) s.tasks)
        (set_streams (put task.id task.handle s.streams) s)

-- `StreamRegistry::cancel`: whether the id was there, and the state after it.
abbrev pub cancel_found : Option ℕ → ℕ → State → Bool × State
cancel_found none id s = (false, s)
cancel_found (some handle) id s =
    (true, set_tasks (abort handle s.tasks) (set_streams (remove id s.streams) s))

unfoldable pub cancel : ℕ → State → Bool × State
cancel id s = cancel_found (lookup id s.streams) id s

-- `StreamRegistry::abort_all`
unfoldable pub abort_all : State → State
abort_all s =
    set_streams []
      (set_tasks (filter (λ t. not (contains (map (λ e. e.1) s.streams) t.handle)) s.tasks) s)
