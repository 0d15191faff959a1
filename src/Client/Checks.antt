-- ===== src/Client/Checks.antt =====
-- Concrete connections, and the theorems at some.
use netdiag.Prelude.{ℕ, ◌≡◌, refl, true, false, none, List, [], ◌∷◌, arith}
use netdiag.Client.Model.{Body, ServerFrame, Reply, Call, Client, connected, Event, run}
use netdiag.Client.Own.{IsOwn, run-IsOwn}
use netdiag.Client.Ends.{has_result, outcome, polled-ends}
use netdiag.Client.Stuck.{begun-never_returns}

abbrev answer : ℕ → ServerFrame
answer id = record { id = id; body = Body.response 7 }

-- Two calls, whose replies arrive in the other order.
abbrev two_calls : List Event
two_calls =
    Event.called false
    ∷ Event.called false
    ∷ Event.sent 1 true
    ∷ Event.sent 2 true
    ∷ Event.frame (answer 2)
    ∷ Event.polled 1 true
    ∷ Event.frame (answer 1)
    ∷ Event.polled 1 true
    ∷ Event.polled 2 true
    ∷ []

both :
    (run two_calls connected).results
    ≡ (2, Reply.replied (answer 2)) ∷ (1, Reply.replied (answer 1)) ∷ []
unfolding run
both = refl

-- A stream that delivers one frame and ends.
one_frame :
    (run
      (Event.called true
        ∷ Event.sent 1 true
        ∷ Event.frame (answer 1)
        ∷ Event.frame (record { id = 1; body = Body.stream_end none })
        ∷ Event.polled 1 true
        ∷ Event.polled 1 true
        ∷ [])
      connected).delivered
    ≡ (1, answer 1) ∷ []
unfolding run
one_frame = refl

-- A stream whose request cannot be sent leaves its sender registered.
leaked : (run (Event.called true ∷ Event.sent 1 false ∷ []) connected).pending ≡ 1 ∷ []
unfolding run
leaked = refl

abbrev waiting : Call
waiting = record { id = 1; is_stream = false; sent = true; queue = [] }

abbrev one_waits : Client
one_waits = record {
  next_id = 2;
  pending = 1 ∷ [];
  reading = true;
  calls = waiting ∷ [];
  results = [];
  delivered = [];
}

abbrev nobody_reads : Client
nobody_reads = record {
  next_id = 5;
  pending = [];
  reading = false;
  calls = [];
  results = [];
  delivered = [];
}

run-IsOwn_example : IsOwn (run two_calls connected)
unfolding IsOwn
run-IsOwn_example = run-IsOwn two_calls connected (tt, tt, tt)

polled-ends_example :
    (run (Event.reader_ended ∷ Event.polled 1 true ∷ []) one_waits).results
    ≡ (1, outcome waiting.queue) ∷ one_waits.results
polled-ends_example = polled-ends one_waits waiting 1 true refl refl refl refl

begun-never_returns_example :
    has_result 5 (
      run
        (Event.called false
          ∷ Event.sent 5 true
          ∷ Event.frame (answer 5)
          ∷ Event.polled 5 true
          ∷ Event.reader_ended
          ∷ [])
        nobody_reads)
    ≡ false
begun-never_returns_example =
    begun-never_returns nobody_reads
      (Event.sent 5 true ∷ Event.frame (answer 5) ∷ Event.polled 5 true ∷ Event.reader_ended ∷ [])
      refl (refl, refl) (omega arith) (refl, (tt, (tt, (tt, tt))))
