-- ===== src/Session/Serve.antt =====
-- daemon/src/ipc/session.rs: `serve`, `dispatch`, `spawn_unary` and `spawn_stream`. The read loop and
-- the tasks that it spawns are interleaved: a connection is a list of events, and each is one step
-- of the loop or of a task. Spawning a stream task and registering it are two steps, since the
-- task may run in between; the loop reads on when both are done.
use netdiag.Prelude.{
  ℕ, ◌+◌, min, Bool, true, false, ◌||◌, Option, none, some, List, [], ◌∷◌, ◌==◌, if◌then◌else◌,
  find, concat, show,
}
use netdiag.Session.Model.{
  Error, Unary, Streaming, Request, Response, Read, StreamOutcome, Stage, Task, State, with_detail,
  invalid_error, not_found_error, set_streams, set_tasks, set_inserting, greet, count, stop_reading,
  reply, error, end_stream,
}
use netdiag.Session.Registry.{remove, insert, cancel, abort, abort_all}

-- PROTOCOL_VERSION of crates/netdiag-ipc/src/proto.rs
abbrev pub protocol_version : ℕ
protocol_version = 1

-- `tokio::spawn`
abbrev pub spawn : ℕ → Stage → State → State
spawn id stage s = record s {
  tasks = record { handle = s.next_handle; id = id; stage = stage } ∷ s.tasks;
  next_handle = s.next_handle + 1;
}

abbrev pub spawn_unary : ℕ → Unary → State → State
spawn_unary id call = spawn id (Stage.answering call)

-- The first half of `spawn_stream`: the task runs, and is about to be registered.
abbrev pub spawn_stream : ℕ → Streaming → State → State
spawn_stream id call s =
    set_inserting (some (record { handle = s.next_handle; id = id; stage = Stage.running call }))
      (spawn id (Stage.running call) s)

abbrev pub after_cancel : ℕ → ℕ → Bool × State → State
after_cancel id target (true, s) =
    reply id (Response.cancelled true) (end_stream target "cancelled by the client" 0 none s)
after_cancel id target (false, s) = reply id (Response.cancelled false) s

-- `stopped` is what `daemon.stop_capture` answers where it is asked.
abbrev pub after_stop : ℕ → ℕ → Bool → Bool × State → State
after_stop id capture_id stopped (was_active, s) =
    if was_active || stopped
    then reply id (Response.capture_finished capture_id "stopped")
        (end_stream capture_id "stopped by the client" 0 none s)
    else error id (not_found_error (concat ("no capture with id " ∷ show capture_id ∷ []))) s

unfoldable pub dispatch : ℕ → Request → Bool → State → State
dispatch id (Request.unary call) stopped s = spawn_unary id call s
dispatch id (Request.streaming call) stopped s = spawn_stream id call s
dispatch id (Request.stop_capture capture_id) stopped s =
    after_stop id capture_id stopped (cancel capture_id s)
dispatch id (Request.hello version) stopped s = s
dispatch id (Request.cancel target) stopped s = s

abbrev pub when_greeted : Bool → ℕ → Request → Bool → State → State
when_greeted true id request stopped s = dispatch id request stopped s
when_greeted false id request stopped s =
    error id (invalid_error "send Hello before any other request so versions can be checked") s

unfoldable pub handle_request : ℕ → Request → Bool → State → State
handle_request id (Request.hello version) stopped s =
    reply id (Response.hello (min version protocol_version)) (greet s)
handle_request id (Request.cancel target) stopped s = after_cancel id target (cancel target s)
handle_request id (Request.stop_capture capture_id) stopped s =
    when_greeted s.greeted id (Request.stop_capture capture_id) stopped s
handle_request id (Request.unary call) stopped s =
    when_greeted s.greeted id (Request.unary call) stopped s
handle_request id (Request.streaming call) stopped s =
    when_greeted s.greeted id (Request.streaming call) stopped s

-- The end of the loop, with the `abort_all` that follows it.
abbrev pub finish : State → State
finish s = stop_reading (abort_all s)

-- One round of the loop.
unfoldable pub receive : Read → Bool → State → State
receive (Read.malformed detail) stopped s =
    finish (error 0 (with_detail detail (invalid_error "malformed frame")) s)
receive Read.closed stopped s = finish s
receive (Read.frame id none) stopped s = error id (invalid_error "frame carries no request") s
receive (Read.frame id (some request)) stopped s =
    if id == 0
    then error 0 (invalid_error "request id must not be zero") s
    else handle_request id request stopped (count s)

-- The loop reads while the connection is open and no registration is under way.
abbrev pub reads_on : Bool → Option Task → Bool
reads_on reading none = reading
reads_on reading (some task) = false

abbrev pub register : Option Task → State → State
register none s = s
register (some task) s = insert task (set_inserting none s)

-- The steps of a task that is alive; a step that its stage does not have does nothing.
abbrev pub send_item : Stage → ℕ → State → State
send_item (Stage.running call) id s = reply id (Response.item call) s
send_item (Stage.answering call) id s = s
send_item Stage.ended id s = s

abbrev pub answer : Stage → Task → Option Error → State → State
answer (Stage.answering call) task none s =
    reply task.id (Response.result call) (set_tasks (abort task.handle s.tasks) s)
answer (Stage.answering call) task (some e) s =
    error task.id e (set_tasks (abort task.handle s.tasks) s)
answer (Stage.running call) task e s = s
answer Stage.ended task e s = s

abbrev pub end_task : Stage → Task → StreamOutcome → State → State
end_task (Stage.running call) task o s =
    end_stream task.id o.reason o.items_sent o.error
      (set_tasks (record task { stage = Stage.ended } ∷ abort task.handle s.tasks) s)
end_task (Stage.answering call) task o s = s
end_task Stage.ended task o s = s

abbrev pub remove_task : Stage → Task → State → State
remove_task Stage.ended task s =
    set_streams (remove task.id s.streams) (set_tasks (abort task.handle s.tasks) s)
remove_task (Stage.answering call) task s = s
remove_task (Stage.running call) task s = s

pub data Event : Type 0 where
  -- the loop reads; the Boolean is the answer of `daemon.stop_capture`
  read : Read → Bool → Event
  -- `registry.insert` in `spawn_stream`
  registered : Event
  -- the task of this handle sends an item, ends with an outcome, removes its id from the
  -- registry, or answers its unary call
  sends : ℕ → Event
  ends : ℕ → StreamOutcome → Event
  removes : ℕ → Event
  answers : ℕ → Option Error → Event

abbrev pub on_task : (Task → State → State) → ℕ → State → State
on_task f handle s = elim (find (λ t. t.handle == handle) s.tasks) [ none ↦ s | some t ↦ f t s ]

unfoldable pub step : Event → State → State
step (Event.read r stopped) s = if reads_on s.reading s.inserting then receive r stopped s else s
step Event.registered s = register s.inserting s
step (Event.sends handle) s = on_task (λ t. send_item t.stage t.id) handle s
step (Event.ends handle o) s = on_task (λ t. end_task t.stage t o) handle s
step (Event.removes handle) s = on_task (λ t. remove_task t.stage t) handle s
step (Event.answers handle e) s = on_task (λ t. answer t.stage t e) handle s

unfoldable pub run : List Event → State → State
run [] s = s
run (e ∷ events) s = run events (step e s)
