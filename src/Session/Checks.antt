-- ===== src/Session/Checks.antt =====
-- Connections with concrete interleavings, and the theorems at them.
use netdiag.Prelude.{
  ℕ, ◌≤◌, ◌≡◌, refl, ◌⊎◌, true, false, none, some, List, [], ◌∷◌, map, length, any,
}
use netdiag.Session.Model.{
  Request, Response, Read, StreamOutcome, Task, ServerFrame, Streaming, Unary, initial,
}
use netdiag.Session.Registry.{max_streams}
use netdiag.Session.Serve.{Event, step, run}
use netdiag.Session.Tracked.{is_stream}
use netdiag.Session.Bounds.{run_bounded}
use netdiag.Session.Greeting.{IsSilent, run_before_hello}
use netdiag.Session.Teardown.{run_torn_down}

abbrev request : ℕ → Request → Event
request id body = Event.read (Read.frame id (some body)) false

abbrev done : StreamOutcome
done = record { reason = "done"; items_sent = 1; error = none }

-- A capture runs, a snapshot is answered beside it, and the client goes.
abbrev plain_events : List Event
plain_events =
    request 1 (Request.hello 1)
    ∷ request 2 (Request.streaming Streaming.start_capture)
    ∷ Event.registered
    ∷ request 3 (Request.unary Unary.get_snapshot)
    ∷ Event.sends 0
    ∷ Event.answers 1 none
    ∷ Event.read Read.closed false
    ∷ []

plain_sent : map (λ (f : ServerFrame). f.id) (run plain_events initial).sent ≡ 1 ∷ 2 ∷ 3 ∷ []
unfolding run step netdiag.Session.Serve.receive netdiag.Session.Serve.handle_request
    netdiag.Session.Serve.dispatch netdiag.Session.Registry.insert netdiag.Session.Registry.lookup
    netdiag.Session.Registry.abort_all
plain_sent = refl

-- The id of a running capture is used again for a call that ends before it is registered: it
-- removes the entry of the capture, which goes on when the connection is closed.
abbrev reused_events : List Event
reused_events =
    request 1 (Request.hello 1)
    ∷ request 2 (Request.streaming Streaming.start_capture)
    ∷ Event.registered
    ∷ request 2 (Request.streaming Streaming.diagnose)
    ∷ Event.ends 1 done
    ∷ Event.removes 1
    ∷ Event.registered
    ∷ Event.read Read.closed false
    ∷ []

capture_goes_on : map (λ (t : Task). t.handle) (run reused_events initial).tasks ≡ 0 ∷ []
unfolding run step netdiag.Session.Serve.receive netdiag.Session.Serve.handle_request
    netdiag.Session.Serve.dispatch netdiag.Session.Registry.insert netdiag.Session.Registry.put
    netdiag.Session.Registry.abort_all netdiag.Session.Registry.lookup
capture_goes_on = refl

-- A call that ends before it is registered keeps its place in the registry.
stale_entry :
    (run
      (request 1 (Request.hello 1)
        ∷ request 2 (Request.streaming Streaming.diagnose)
        ∷ Event.ends 0 done
        ∷ Event.removes 0
        ∷ Event.registered
        ∷ [])
      initial).streams
    ≡ (2, 0) ∷ []
unfolding run step netdiag.Session.Serve.receive netdiag.Session.Serve.handle_request
    netdiag.Session.Serve.dispatch netdiag.Session.Registry.insert netdiag.Session.Registry.put
stale_entry = refl

-- A call that is cancelled between its end and its removal is ended twice.
ended_twice :
    map
      (λ (f : ServerFrame). f.body)
      (run
        (request 1 (Request.hello 1)
          ∷ request 2 (Request.streaming Streaming.diagnose)
          ∷ Event.registered
          ∷ Event.ends 0 done
          ∷ request 3 (Request.cancel 2)
          ∷ [])
        initial).sent
    ≡ Response.hello 1
      ∷ Response.stream_end "done" 1 none
      ∷ Response.stream_end "cancelled by the client" 0 none
      ∷ Response.cancelled true
      ∷ []
unfolding run step netdiag.Session.Serve.receive netdiag.Session.Serve.handle_request
    netdiag.Session.Serve.dispatch netdiag.Session.Registry.insert netdiag.Session.Registry.lookup
    netdiag.Session.Registry.cancel netdiag.Session.Registry.put
ended_twice = refl

run_bounded_example : length (run plain_events initial).streams ≤ max_streams
run_bounded_example = run_bounded plain_events

run_torn_down_example :
    ((run plain_events initial).reading ≡ true)
    ⊎ (any is_stream (run plain_events initial).tasks ≡ false)
run_torn_down_example = run_torn_down plain_events (tt, (refl, (tt, (tt, (tt, (tt, (tt, tt)))))))

-- A client that asks before it says hello.
abbrev hasty_events : List Event
hasty_events =
    request 1 (Request.unary Unary.get_routes)
    ∷ request 0 (Request.hello 1)
    ∷ request 2 (Request.cancel 1)
    ∷ []

run_before_hello_example : IsSilent (run hasty_events initial)
run_before_hello_example = run_before_hello hasty_events (refl, (refl, (refl, tt)))
