-- ===== src/Client/Ends.antt =====
-- What becomes of the calls of crates/netdiag-ipc/src/client.rs that wait when the read loop ends.
use netdiag.Prelude.{
  ℕ, ◌≡◌, refl, ap, subst, Bool, true, false, some, List, [], ◌∷◌, ◌==◌, ==_iff, any, find,
  find-some, contains,
}
use netdiag.Client.Model.{
  Body, check_error, ServerFrame, Reply, Call, Client, is_call, return_, stop_reading, poll,
  poll_if_sent, Event, step, run,
}

abbrev pub is_result : ℕ → ℕ × Reply → Bool
is_result id r = r.0 == id

-- `unary` has returned under this id.
abbrev pub has_result : ℕ → Client → Bool
has_result id s = any (is_result id) s.results

-- What a frame with this body is to the call that gets it: an error, or the reply.
abbrev pub outcome_of : ServerFrame → Body → Reply
outcome_of f (Body.error message) = Reply.refused f
outcome_of f (Body.stream_end e) = Reply.replied f
outcome_of f (Body.response n) = Reply.replied f

-- What a call returns that finds these frames queued after the read loop.
abbrev pub outcome : List ServerFrame → Reply
outcome [] = Reply.closed
outcome (f ∷ queue) = outcome_of f f.body

check_error-outcome_of : (f : ServerFrame) (body : Body) → check_error f body ≡ outcome_of f body
unfolding check_error
check_error-outcome_of f (Body.error message) = refl
check_error-outcome_of f (Body.stream_end e) = refl
check_error-outcome_of f (Body.response n) = refl

poll-returns :
    (c : Call) (queue : List ServerFrame) (is_open : Bool) (s : Client)
    → c.is_stream ≡ false
    → s.pending ≡ []
    → (poll c queue is_open s).results ≡ (c.id, outcome queue) ∷ s.results
unfolding poll return_
poll-returns c (f ∷ queue) is_open s unary gone =
    rw unary (ap (λ r. (c.id, r) ∷ s.results) (check_error-outcome_of f f.body))
poll-returns c [] is_open s unary gone =
    let absent : contains s.pending c.id ≡ false = rw gone refl in rw (absent, unary) refl

-- Where the read loop has ended while a unary call waits for its reply, the call returns at its next poll, and what it
-- returns is the only new result: the first frame that had been queued for it, as an error where the frame carries one,
-- or, where none had been, the error that the connection closed.
pub polled-ends :
    (s : Client) (c : Call) (id : ℕ) (is_open : Bool)
    → s.reading ≡ true
    → find (is_call id) s.calls ≡ some c
    → c.is_stream ≡ false
    → c.sent ≡ true
    → (run (Event.reader_ended ∷ Event.polled id is_open ∷ []) s).results
      ≡ (id, outcome c.queue) ∷ s.results
unfolding run step stop_reading poll_if_sent
polled-ends s c id is_open reading found unary sent =
    let gone = record s { reading = false; pending = [] } in
    let same : c.id ≡ id = (==_iff c.id id).0 (find-some (is_call id) s.calls c found) in
    rw reading (
      rw (found, sent)
        (subst (λ i. (poll c c.queue is_open gone).results ≡ (i, outcome c.queue) ∷ s.results) same
          (poll-returns c c.queue is_open gone unary refl)))
