-- ===== src/Client/Own.antt =====
-- A call of crates/netdiag-ipc/src/client.rs is given the frames that carry its id, and no others.
use netdiag.Prelude.{
  ℕ, ◌≡◌, refl, sym, subst, inl, inr, Bool, true, false, ◌&&◌, Option, none, some, List, [], ◌∷◌,
  ◌++◌, map, arith, ltb, ◌==◌, ◌!=◌, if◌then◌else◌, ==_iff, Bool-cases, length, find, All,
  All-filter, All-find, contains,
}
use netdiag.Client.Model.{
  Body, ServerFrame, Reply, Call, Client, check_error, forget, is_call, begin, mark_sent, return_,
  give_up, end_stream, after_send, enqueue, receive, stop_reading, set_queue, deliver, forward,
  poll, poll_if_sent, Event, on_call, step, run,
}

abbrev pub IsFor : ℕ → ServerFrame → Type 0
IsFor id frame = frame.id ≡ id

abbrev pub OwnsQueue : Call → Type 0
OwnsQueue c = All (IsFor c.id) c.queue

abbrev pub IsForReply : ℕ → Reply → Type 0
IsForReply id (Reply.replied frame) = IsFor id frame
IsForReply id (Reply.refused frame) = IsFor id frame
IsForReply id Reply.send_failed = Unit
IsForReply id Reply.closed = Unit

abbrev pub OwnsResult : ℕ × Reply → Type 0
OwnsResult r = IsForReply r.0 r.1

abbrev pub OwnsDelivered : ℕ × ServerFrame → Type 0
OwnsDelivered d = IsFor d.0 d.1

-- What is queued for a call, was returned by it or delivered on its stream carries its id.
unfoldable pub IsOwn : Client → Type 0
IsOwn s = All OwnsQueue s.calls × All OwnsResult s.results × All OwnsDelivered s.delivered

All-mapped :
    (g : Call → Call) (cs : List Call)
    → ((c : Call) → OwnsQueue c → OwnsQueue (g c))
    → All OwnsQueue cs
    → All OwnsQueue (map g cs)
All-mapped g [] h ps = tt
All-mapped g (c ∷ cs) h (p, ps) = (h c p, All-mapped g cs h ps)

All-append :
    (id : ℕ) (fs : List ServerFrame) (f : ServerFrame)
    → All (IsFor id) fs
    → IsFor id f
    → All (IsFor id) (fs ++ f ∷ [])
All-append id [] f ps p = (p, tt)
All-append id (x ∷ fs) f (q, ps) p = (q, All-append id fs f ps p)

forget-Owns : (id : ℕ) (cs : List Call) → All OwnsQueue cs → All OwnsQueue (forget id cs)
forget-Owns id cs h = All-filter OwnsQueue OwnsQueue (λ c. c.id != id) cs (λ c e p. p) h

mark_sent-Owns : (id : ℕ) (c : Call) → OwnsQueue c → OwnsQueue (mark_sent id c)
mark_sent-Owns id c h = elim (Bool-cases (c.id == id)) [
  | inl here ↦ rw here h
  | inr elsewhere ↦ rw elsewhere h
]

enqueue-Owns : (f : ServerFrame) (c : Call) → OwnsQueue c → OwnsQueue (enqueue f c)
enqueue-Owns f c h = elim (Bool-cases (c.id == f.id && ltb (length c.queue) 256)) [
  | inl here ↦ rw here (All-append c.id c.queue f h (ground arith))
  | inr elsewhere ↦ rw elsewhere h
]

set_queue-Owns :
    (id : ℕ) (queue : List ServerFrame) (c : Call)
    → All (IsFor id) queue
    → OwnsQueue c
    → OwnsQueue (set_queue id queue c)
set_queue-Owns id queue c q h = elim (Bool-cases (c.id == id)) [
  | inl here ↦ rw here (subst (λ i. All (IsFor i) queue) (sym ((==_iff c.id id).0 here)) q)
  | inr elsewhere ↦ rw elsewhere h
]

return-IsOwn :
    (id : ℕ) (reply : Reply) (s : Client)
    → IsForReply id reply
    → IsOwn s
    → IsOwn (return_ id reply s)
unfolding IsOwn return_
return-IsOwn id reply s r (q, rs, ds) = (forget-Owns id s.calls q, (r, rs), ds)

end_stream-IsOwn : (id : ℕ) (s : Client) → IsOwn s → IsOwn (end_stream id s)
unfolding IsOwn end_stream
end_stream-IsOwn id s (q, rs, ds) = (forget-Owns id s.calls q, rs, ds)

deliver-IsOwn :
    (id : ℕ) (f : ServerFrame) (queue : List ServerFrame) (s : Client)
    → IsFor id f
    → All (IsFor id) queue
    → IsOwn s
    → IsOwn (deliver id f queue s)
unfolding IsOwn deliver
deliver-IsOwn id f queue s p ps (q, rs, ds) =
    (All-mapped (set_queue id queue) s.calls (λ c h. set_queue-Owns id queue c ps h) q, rs, (p, ds))

forward-IsOwn :
    (id : ℕ) (f : ServerFrame) (b : Body) (queue : List ServerFrame) (is_open : Bool) (s : Client)
    → IsFor id f
    → All (IsFor id) queue
    → IsOwn s
    → IsOwn (forward id f b queue is_open s)
unfolding forward
forward-IsOwn id f (Body.stream_end e) queue is_open s p ps h = end_stream-IsOwn id s h
forward-IsOwn id f (Body.error m) queue true s p ps h = deliver-IsOwn id f queue s p ps h
forward-IsOwn id f (Body.error m) queue false s p ps h = end_stream-IsOwn id s h
forward-IsOwn id f (Body.response n) queue true s p ps h = deliver-IsOwn id f queue s p ps h
forward-IsOwn id f (Body.response n) queue false s p ps h = end_stream-IsOwn id s h

check_error-IsFor :
    (id : ℕ) (f : ServerFrame) (b : Body) → IsFor id f → IsForReply id (check_error f b)
unfolding check_error
check_error-IsFor id f (Body.error m) p = p
check_error-IsFor id f (Body.stream_end e) p = p
check_error-IsFor id f (Body.response n) p = p

if-IsOwn : (b : Bool) (s t : Client) → IsOwn s → IsOwn t → IsOwn (if b then s else t)
if-IsOwn true s t h k = h
if-IsOwn false s t h k = k

poll-IsOwn :
    (c : Call) (queue : List ServerFrame) (is_open : Bool) (s : Client)
    → All (IsFor c.id) queue
    → IsOwn s
    → IsOwn (poll c queue is_open s)
unfolding poll
poll-IsOwn c (f ∷ queue) is_open s (p, ps) h =
    if-IsOwn c.is_stream _ _ (forward-IsOwn c.id f f.body queue is_open s p ps h)
      (return-IsOwn c.id (check_error f f.body) s (check_error-IsFor c.id f f.body p) h)
poll-IsOwn c [] is_open s ps h =
    if-IsOwn (contains s.pending c.id) _ _ h
      (if-IsOwn c.is_stream _ _ (end_stream-IsOwn c.id s h) (return-IsOwn c.id Reply.closed s tt h))

on_call-IsOwn :
    (o : Option Call) (f : Call → Client) (s : Client)
    → ((c : Call) → o ≡ some c → IsOwn (f c))
    → IsOwn s
    → IsOwn (on_call o f s)
on_call-IsOwn none f s h k = k
on_call-IsOwn (some c) f s h k = h c refl

after_send-IsOwn : (b : Bool) (c : Call) (s : Client) → IsOwn s → IsOwn (after_send b c s)
unfolding after_send give_up IsOwn
after_send-IsOwn true c s (q, rs, ds) =
    (All-mapped (mark_sent c.id) s.calls (mark_sent-Owns c.id) q, rs, ds)
after_send-IsOwn false c s h =
    if-IsOwn c.is_stream _ _ (forget-Owns c.id s.calls h.0, h.1, h.2)
      (return-IsOwn c.id Reply.send_failed s tt h)

step-IsOwn : (e : Event) (s : Client) → IsOwn s → IsOwn (step e s)
unfolding step begin receive stop_reading poll_if_sent IsOwn
step-IsOwn (Event.called is_stream) s (q, rs, ds) = ((tt, q), rs, ds)
step-IsOwn (Event.sent id succeeded) s h =
    on_call-IsOwn (find (is_call id) s.calls) _ s
      (λ c e. if-IsOwn c.sent s (after_send succeeded c s) h (after_send-IsOwn succeeded c s h)) h
step-IsOwn (Event.frame f) s h =
    if-IsOwn (s.reading && contains s.pending f.id) _ s
      (All-mapped (enqueue f) s.calls (enqueue-Owns f) h.0, h.1, h.2) h
step-IsOwn Event.reader_ended s h = if-IsOwn s.reading _ s (h.0, h.1, h.2) h
step-IsOwn (Event.polled id is_open) s h =
    on_call-IsOwn (find (is_call id) s.calls) _ s
      (λ c e.
        if-IsOwn c.sent _ s
          (poll-IsOwn c c.queue is_open s (All-find OwnsQueue (is_call id) s.calls c e h.0) h) h)
      h

-- However the tasks of a client interleave, every frame that a call returns, or that the receiver of a stream is sent,
-- carries the id of that call.
pub run-IsOwn : (es : List Event) (s : Client) → IsOwn s → IsOwn (run es s)
unfolding run
run-IsOwn [] s h = h
run-IsOwn (e ∷ es) s h = run-IsOwn es (step e s) (step-IsOwn e s h)
