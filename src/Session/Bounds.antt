-- ===== src/Session/Bounds.antt =====
-- daemon/src/ipc/session.rs: how many streams a connection runs.
use netdiag.Prelude.{
  ℕ, ◌+◌, ◌≤◌, inl, inr, Bool, true, false, Option, none, some, List, [], ◌∷◌, arith, ◌==◌, ◌!=◌,
  Bool-cases, length, find, filter,
}
use netdiag.Session.Model.{
  Error, Request, Read, StreamOutcome, Stage, Task, State, initial, count, set_inserting,
}
use netdiag.Session.Registry.{max_streams, lookup, put, insert, cancel, cancel_found, abort_all}
use netdiag.Session.Serve.{
  Event, dispatch, handle_request, receive, reads_on, register, when_greeted, after_cancel,
  after_stop, answer, send_item, end_task, remove_task, on_task, step, run,
}

abbrev IsBounded : State → Type 0
IsBounded s = length s.streams ≤ max_streams

length-filter {ℓ} : {A : Type ℓ} (p : A → Bool) (xs : List A) → length (filter p xs) ≤ length xs
length-filter p [] = omega arith
length-filter p (x ∷ xs) = ground (arith, length-filter p xs)

length-put :
    (id handle : ℕ) (streams : List (ℕ × ℕ)) → length (put id handle streams) ≤ length streams + 1
unfolding put
length-put id handle [] = omega arith
length-put id handle ((key, old) ∷ streams) = ground (arith, length-put id handle streams)

insert-IsBounded : (task : Task) (s : State) → IsBounded s → IsBounded (insert task s)
unfolding insert
insert-IsBounded task s h = ground (arith, length-put task.id task.handle s.streams)

cancel_found-IsBounded :
    (o : Option ℕ) (id : ℕ) (s : State) → IsBounded s → IsBounded (cancel_found o id s).1
cancel_found-IsBounded none id s h = h
cancel_found-IsBounded (some handle) id s h =
    ground (arith, length-filter (λ e. e.0 != id) s.streams)

cancel-IsBounded : (id : ℕ) (s : State) → IsBounded s → IsBounded (cancel id s).1
unfolding cancel
cancel-IsBounded id s h = cancel_found-IsBounded (lookup id s.streams) id s h

after_cancel-IsBounded :
    (id target : ℕ) (r : Bool × State) → IsBounded r.1 → IsBounded (after_cancel id target r)
after_cancel-IsBounded id target (true, s) h = h
after_cancel-IsBounded id target (false, s) h = h

after_stop-IsBounded :
    (id capture_id : ℕ) (stopped : Bool) (r : Bool × State)
    → IsBounded r.1
    → IsBounded (after_stop id capture_id stopped r)
after_stop-IsBounded id capture_id stopped (was_active, s) h = ground arith

dispatch-IsBounded :
    (id : ℕ) (request : Request) (stopped : Bool) (s : State)
    → IsBounded s
    → IsBounded (dispatch id request stopped s)
unfolding dispatch
dispatch-IsBounded id (Request.unary call) stopped s h = h
dispatch-IsBounded id (Request.streaming call) stopped s h = h
dispatch-IsBounded id (Request.hello version) stopped s h = h
dispatch-IsBounded id (Request.cancel target) stopped s h = h
dispatch-IsBounded id (Request.stop_capture capture_id) stopped s h =
    after_stop-IsBounded id capture_id stopped (cancel capture_id s)
      (cancel-IsBounded capture_id s h)

when_greeted-IsBounded :
    (greeted : Bool) (id : ℕ) (request : Request) (stopped : Bool) (s : State)
    → IsBounded s
    → IsBounded (when_greeted greeted id request stopped s)
when_greeted-IsBounded true id request stopped s h = dispatch-IsBounded id request stopped s h
when_greeted-IsBounded false id request stopped s h = h

handle_request-IsBounded :
    (id : ℕ) (request : Request) (stopped : Bool) (s : State)
    → IsBounded s
    → IsBounded (handle_request id request stopped s)
unfolding handle_request
handle_request-IsBounded id (Request.hello version) stopped s h = h
handle_request-IsBounded id (Request.cancel target) stopped s h =
    after_cancel-IsBounded id target (cancel target s) (cancel-IsBounded target s h)
handle_request-IsBounded id (Request.stop_capture capture_id) stopped s h =
    when_greeted-IsBounded s.greeted id (Request.stop_capture capture_id) stopped s h
handle_request-IsBounded id (Request.unary call) stopped s h =
    when_greeted-IsBounded s.greeted id (Request.unary call) stopped s h
handle_request-IsBounded id (Request.streaming call) stopped s h =
    when_greeted-IsBounded s.greeted id (Request.streaming call) stopped s h

receive-IsBounded :
    (r : Read) (stopped : Bool) (s : State) → IsBounded s → IsBounded (receive r stopped s)
unfolding receive abort_all
receive-IsBounded (Read.malformed detail) stopped s h = omega arith
receive-IsBounded Read.closed stopped s h = omega arith
receive-IsBounded (Read.frame id none) stopped s h = h
receive-IsBounded (Read.frame id (some request)) stopped s h = elim (Bool-cases (id == 0)) [
  | inl unnamed ↦ rw unnamed h
  | inr named ↦ rw named (handle_request-IsBounded id request stopped (count s) h)
]

register-IsBounded : (o : Option Task) (s : State) → IsBounded s → IsBounded (register o s)
register-IsBounded none s h = h
register-IsBounded (some task) s h = insert-IsBounded task (set_inserting none s) h

answer-IsBounded :
    (stage : Stage) (task : Task) (e : Option Error) (s : State)
    → IsBounded s
    → IsBounded (answer stage task e s)
answer-IsBounded (Stage.answering call) task none s h = h
answer-IsBounded (Stage.answering call) task (some e) s h = h
answer-IsBounded (Stage.running call) task e s h = h
answer-IsBounded Stage.ended task e s h = h

send_item-IsBounded :
    (stage : Stage) (id : ℕ) (s : State) → IsBounded s → IsBounded (send_item stage id s)
send_item-IsBounded (Stage.answering call) id s h = h
send_item-IsBounded (Stage.running call) id s h = h
send_item-IsBounded Stage.ended id s h = h

end_task-IsBounded :
    (stage : Stage) (task : Task) (o : StreamOutcome) (s : State)
    → IsBounded s
    → IsBounded (end_task stage task o s)
end_task-IsBounded (Stage.answering call) task o s h = h
end_task-IsBounded (Stage.running call) task o s h = h
end_task-IsBounded Stage.ended task o s h = h

remove_task-IsBounded :
    (stage : Stage) (task : Task) (s : State) → IsBounded s → IsBounded (remove_task stage task s)
remove_task-IsBounded (Stage.answering call) task s h = h
remove_task-IsBounded (Stage.running call) task s h = h
remove_task-IsBounded Stage.ended task s h =
    ground (arith, length-filter (λ e. e.0 != task.id) s.streams)

on_task-IsBounded :
    (f : Task → State → State) (handle : ℕ) (s : State)
    → ((t : Task) → IsBounded (f t s))
    → IsBounded s
    → IsBounded (on_task f handle s)
on_task-IsBounded f handle s hf h =
    elim (find (λ t. t.handle == handle) s.tasks)
      as (λ o. IsBounded (elim o [ none ↦ s | some t ↦ f t s ])) [ none ↦ h | some t ↦ hf t ]

step-IsBounded : (e : Event) (s : State) → IsBounded s → IsBounded (step e s)
unfolding step
step-IsBounded (Event.read r stopped) s h = elim (Bool-cases (reads_on s.reading s.inserting)) [
  | inl on ↦ rw on (receive-IsBounded r stopped s h)
  | inr off ↦ rw off h
]
step-IsBounded Event.registered s h = register-IsBounded s.inserting s h
step-IsBounded (Event.sends handle) s h =
    on_task-IsBounded (λ t. send_item t.stage t.id) handle s
      (λ t. send_item-IsBounded t.stage t.id s h) h
step-IsBounded (Event.ends handle o) s h =
    on_task-IsBounded (λ t. end_task t.stage t o) handle s (λ t. end_task-IsBounded t.stage t o s h)
      h
step-IsBounded (Event.removes handle) s h =
    on_task-IsBounded (λ t. remove_task t.stage t) handle s
      (λ t. remove_task-IsBounded t.stage t s h) h
step-IsBounded (Event.answers handle e) s h =
    on_task-IsBounded (λ t. answer t.stage t e) handle s (λ t. answer-IsBounded t.stage t e s h) h

run-IsBounded : (events : List Event) (s : State) → IsBounded s → IsBounded (run events s)
unfolding run
run-IsBounded [] s h = h
run-IsBounded (e ∷ events) s h = run-IsBounded events (step e s) (step-IsBounded e s h)

-- However the reads of a connection and the steps of its tasks are interleaved, no more than 16
-- streams are registered.
pub run_bounded : (events : List Event) → length (run events initial).streams ≤ max_streams
run_bounded events = run-IsBounded events initial (omega arith)
