-- ===== src/Session/Greeting.antt =====
-- daemon/src/ipc/session.rs: before the client says hello, nothing is run.
use netdiag.Prelude.{
  ℕ, ◌≡◌, refl, sym, ap, subst, inl, inr, Bool, true, false, not, none, some, List, [], ◌∷◌, ◌++◌,
  map, arith, ◌==◌, ◌!=◌, Bool-cases, find, filter, All, contains,
}
use netdiag.Session.Model.{Request, Response, Read, ServerFrame, Task, State, initial, count, reply}
use netdiag.Session.Registry.{lookup, cancel, cancel_found, abort_all}
use netdiag.Session.Serve.{
  Event, handle_request, receive, reads_on, register, when_greeted, after_cancel, on_task, step,
  run, finish, send_item, end_task, remove_task, answer,
}

-- A Hello whose id is not zero.
abbrev pub is_hello : Event → Bool
is_hello (Event.read (Read.frame id (some (Request.hello version))) stopped) = id != 0
is_hello (Event.read (Read.frame id (some (Request.cancel target))) stopped) = false
is_hello (Event.read (Read.frame id (some (Request.stop_capture capture_id))) stopped) = false
is_hello (Event.read (Read.frame id (some (Request.unary call))) stopped) = false
is_hello (Event.read (Read.frame id (some (Request.streaming call))) stopped) = false
is_hello (Event.read (Read.frame id none) stopped) = false
is_hello (Event.read Read.closed stopped) = false
is_hello (Event.read (Read.malformed detail) stopped) = false
is_hello Event.registered = false
is_hello (Event.sends handle) = false
is_hello (Event.ends handle o) = false
is_hello (Event.removes handle) = false
is_hello (Event.answers handle e) = false

-- An error, or the answer that there was nothing to cancel.
abbrev is_refusal_body : Response → Bool
is_refusal_body (Response.failure e) = true
is_refusal_body (Response.cancelled was_active) = not was_active
is_refusal_body (Response.hello version) = false
is_refusal_body (Response.result call) = false
is_refusal_body (Response.item call) = false
is_refusal_body (Response.stream_end reason items_sent e) = false
is_refusal_body (Response.capture_finished capture_id reason) = false

abbrev pub IsRefusal : ServerFrame → Type 0
IsRefusal f = is_refusal_body f.body ≡ true

abbrev pub IsSilent : State → Type 0
IsSilent s =
    (s.greeted ≡ false)
    × (s.tasks ≡ [])
    × (s.streams ≡ [])
    × (s.inserting ≡ none)
    × All IsRefusal s.sent

All-append :
    (xs : List ServerFrame) (f : ServerFrame)
    → All IsRefusal xs
    → IsRefusal f
    → All IsRefusal (xs ++ f ∷ [])
All-append [] f hs h = (h, tt)
All-append (x ∷ xs) f (g, hs) h = (g, All-append xs f hs h)

reply-IsSilent :
    (id : ℕ) (body : Response) (s : State)
    → is_refusal_body body ≡ true
    → IsSilent s
    → IsSilent (reply id body s)
reply-IsSilent id body s h (ungreeted, tasks, streams, idle, sent) =
    (ungreeted, tasks, streams, idle, All-append s.sent (record { id = id; body = body }) sent h)

finish-IsSilent : (s : State) → IsSilent s → IsSilent (finish s)
unfolding abort_all
finish-IsSilent s (ungreeted, tasks, streams, idle, sent) = (
  ungreeted,
  ap (filter (λ (t : Task). not (contains (map (λ e. e.1) s.streams) t.handle))) tasks,
  refl,
  idle,
  sent,
)

cancel-silent : (id : ℕ) (s : State) → s.streams ≡ [] → cancel id s ≡ (false, s)
unfolding cancel lookup
cancel-silent id s e = ap (λ streams. cancel_found (lookup id streams) id s) e

refused-IsSilent :
    (id : ℕ) (request : Request) (stopped : Bool) (s : State)
    → IsSilent s
    → IsSilent (when_greeted s.greeted id request stopped s)
refused-IsSilent id request stopped s h =
    subst (λ g. IsSilent (when_greeted g id request stopped s)) (sym h.0)
      (reply-IsSilent id _ s refl h)

request-IsSilent :
    (id : ℕ) (request : Request) (stopped : Bool) (s : State)
    → (id == 0) ≡ false
    → is_hello (Event.read (Read.frame id (some request)) stopped) ≡ false
    → IsSilent s
    → IsSilent (handle_request id request stopped s)
unfolding handle_request
request-IsSilent id (Request.hello version) stopped s named e h = absurd (ground (arith, named, e))
request-IsSilent id (Request.cancel target) stopped s named e h =
    subst (λ r. IsSilent (after_cancel id target r)) (sym (cancel-silent target s h.2))
      (reply-IsSilent id (Response.cancelled false) s refl h)
request-IsSilent id (Request.stop_capture capture_id) stopped s named e h =
    refused-IsSilent id (Request.stop_capture capture_id) stopped s h
request-IsSilent id (Request.unary call) stopped s named e h =
    refused-IsSilent id (Request.unary call) stopped s h
request-IsSilent id (Request.streaming call) stopped s named e h =
    refused-IsSilent id (Request.streaming call) stopped s h

receive-IsSilent :
    (r : Read) (stopped : Bool) (s : State)
    → is_hello (Event.read r stopped) ≡ false
    → IsSilent s
    → IsSilent (receive r stopped s)
unfolding receive
receive-IsSilent (Read.malformed detail) stopped s e h =
    finish-IsSilent _ (reply-IsSilent 0 _ s refl h)
receive-IsSilent Read.closed stopped s e h = finish-IsSilent s h
receive-IsSilent (Read.frame id none) stopped s e h = reply-IsSilent id _ s refl h
receive-IsSilent (Read.frame id (some request)) stopped s e h = elim (Bool-cases (id == 0)) [
  | inl unnamed ↦ rw unnamed (reply-IsSilent 0 _ s refl h)
  | inr named ↦ rw named (request-IsSilent id request stopped (count s) named e h)
]

on_task-silent :
    (f : Task → State → State) (handle : ℕ) (s : State) → s.tasks ≡ [] → on_task f handle s ≡ s
on_task-silent f handle s e =
    ap (λ tasks. elim (find (λ (t : Task). t.handle == handle) tasks) [ none ↦ s | some t ↦ f t s ])
      e

step-IsSilent : (e : Event) (s : State) → is_hello e ≡ false → IsSilent s → IsSilent (step e s)
unfolding step
step-IsSilent (Event.read r stopped) s e h = elim (Bool-cases (reads_on s.reading s.inserting)) [
  | inl on ↦ rw on (receive-IsSilent r stopped s e h)
  | inr off ↦ rw off h
]
step-IsSilent Event.registered s e h = subst (λ o. IsSilent (register o s)) (sym h.3) h
step-IsSilent (Event.sends handle) s e h =
    subst IsSilent (sym (on_task-silent (λ t. send_item t.stage t.id) handle s h.1)) h
step-IsSilent (Event.ends handle o) s e h =
    subst IsSilent (sym (on_task-silent (λ t. end_task t.stage t o) handle s h.1)) h
step-IsSilent (Event.removes handle) s e h =
    subst IsSilent (sym (on_task-silent (λ t. remove_task t.stage t) handle s h.1)) h
step-IsSilent (Event.answers handle x) s e h =
    subst IsSilent (sym (on_task-silent (λ t. answer t.stage t x) handle s h.1)) h

run-IsSilent :
    (events : List Event) (s : State)
    → All (λ e. is_hello e ≡ false) events
    → IsSilent s
    → IsSilent (run events s)
unfolding run
run-IsSilent [] s hs h = h
run-IsSilent (e ∷ events) s (ok, hs) h = run-IsSilent events (step e s) hs (step-IsSilent e s ok h)

-- Until the client says Hello under an id that is not zero, whatever else it sends, no task runs, no
-- stream is registered or about to be, and all that is sent are errors and answers that there was
-- nothing to cancel.
pub run_before_hello :
    (events : List Event) → All (λ e. is_hello e ≡ false) events → IsSilent (run events initial)
run_before_hello events hs = run-IsSilent events initial hs (refl, refl, refl, refl, tt)
