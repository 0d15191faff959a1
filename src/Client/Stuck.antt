-- ===== src/Client/Stuck.antt =====
-- A call of crates/netdiag-ipc/src/client.rs that begins after the read loop has ended.
use netdiag.Prelude.{
  ℕ, suc, ◌+◌, ◌%◌, ◌^◌, ◌<◌, ◌≡◌, refl, sym, ap, ◌∙◌, ◌≢◌, inl, inr, Bool, true, false, not, ◌&&◌,
  Option, none, some, List, [], ◌∷◌, map, arith, ◌==◌, ◌!=◌, if◌then◌else◌, ==_iff, Bool-cases,
  length, find, All, All-map, find-some, find-none, All-filter, All-find, contains, contains-filter,
}
use netdiag.Client.Model.{
  ServerFrame, Body, Reply, Call, Client, check_error, remove, forget, is_call, begin, mark_sent,
  return_, give_up, end_stream, after_send, receive, stop_reading, set_queue, deliver, forward,
  poll, poll_if_sent, Event, on_call, step, run,
}
use netdiag.Client.Ends.{has_result}

-- Nothing is queued for the call.
abbrev pub Waits : ℕ → Call → Type 0
Waits id c = c.id ≡ id → c.queue ≡ []

-- The id has been taken, and `left` more can be before the ids start again.
abbrev pub HasRoom : ℕ → ℕ → Client → Type 0
HasRoom id left s = (id < s.next_id) × (s.next_id + left < 2 ^ 64)

-- The read loop has ended; the sender of the call is registered, its queue is empty and it has not returned.
pub IsStuck : ℕ → ℕ → Client → Type 0
IsStuck id left s =
    (s.reading ≡ false)
    × (contains s.pending id ≡ true)
    × All (Waits id) s.calls
    × (has_result id s ≡ false)
    × HasRoom id left s

-- The event is not that the request of the call could not be sent.
abbrev pub IsSent : ℕ → Event → Type 0
IsSent id (Event.sent other succeeded) = (other == id && not succeeded) ≡ false
IsSent id (Event.called is_stream) = Unit
IsSent id (Event.frame f) = Unit
IsSent id Event.reader_ended = Unit
IsSent id (Event.polled other is_open) = Unit

module _ (id left : ℕ) where
  All-mapped :
      (g : Call → Call) (cs : List Call)
      → ((c : Call) → Waits id c → Waits id (g c))
      → All (Waits id) cs
      → All (Waits id) (map g cs)
  All-mapped g [] h ps = tt
  All-mapped g (c ∷ cs) h (p, ps) = (h c p, All-mapped g cs h ps)

  forget-Waits : (other : ℕ) (cs : List Call) → All (Waits id) cs → All (Waits id) (forget other cs)
  forget-Waits other cs h = All-filter (Waits id) (Waits id) (λ c. c.id != other) cs (λ c e p. p) h

  mark_sent-Waits : (other : ℕ) (c : Call) → Waits id c → Waits id (mark_sent other c)
  mark_sent-Waits other c h = elim (Bool-cases (c.id == other)) [
    | inl here ↦ rw here h
    | inr elsewhere ↦ rw elsewhere h
  ]

  set_queue-Waits :
      (other : ℕ) (queue : List ServerFrame) (c : Call)
      → other ≢ id
      → Waits id c
      → Waits id (set_queue other queue c)
  set_queue-Waits other queue c apart h = elim (Bool-cases (c.id == other)) [
    | inl here ↦ rw here (λ e. absurd (apart (sym ((==_iff c.id other).0 here) ∙ e)))
    | inr elsewhere ↦ rw elsewhere h
  ]

  -- Another id is not the call's, and taking it out leaves the call's where it is.
  apart_test : (other : ℕ) → other ≢ id → (other == id) ≡ false
  apart_test other apart = ground (arith, apart)

  remove-keeps :
      (other : ℕ) (pending : List ℕ)
      → other ≢ id
      → contains pending id ≡ true
      → contains (remove other pending) id ≡ true
  remove-keeps other pending apart p =
      contains-filter other id pending ∙ ground (arith, apart_test other apart, p)

  return-IsStuck :
      (other : ℕ) (reply : Reply) (s : Client)
      → other ≢ id
      → IsStuck id left s
      → IsStuck id left (return_ other reply s)
  unfolding IsStuck return_
  return-IsStuck other reply s apart (r, p, w, n, b) = (
    r,
    remove-keeps other s.pending apart p,
    forget-Waits other s.calls w,
    rw (apart_test other apart) n,
    b,
  )

  end_stream-IsStuck :
      (other : ℕ) (s : Client)
      → other ≢ id
      → IsStuck id left s
      → IsStuck id left (end_stream other s)
  unfolding IsStuck end_stream
  end_stream-IsStuck other s apart (r, p, w, n, b) =
      (r, remove-keeps other s.pending apart p, forget-Waits other s.calls w, n, b)

  give_up-IsStuck : (other : ℕ) (s : Client) → IsStuck id left s → IsStuck id left (give_up other s)
  unfolding IsStuck give_up
  give_up-IsStuck other s (r, p, w, n, b) = (r, p, forget-Waits other s.calls w, n, b)

  deliver-IsStuck :
      (other : ℕ) (f : ServerFrame) (queue : List ServerFrame) (s : Client)
      → other ≢ id
      → IsStuck id left s
      → IsStuck id left (deliver other f queue s)
  unfolding IsStuck deliver
  deliver-IsStuck other f queue s apart (r, p, w, n, b) = (
    r,
    p,
    All-mapped (set_queue other queue) s.calls (λ c. set_queue-Waits other queue c apart) w,
    n,
    b,
  )

  if-IsStuck :
      (b : Bool) (s t : Client)
      → IsStuck id left s
      → IsStuck id left t
      → IsStuck id left (if b then s else t)
  if-IsStuck true s t h k = h
  if-IsStuck false s t h k = k

  forward-IsStuck :
      (other : ℕ) (f : ServerFrame) (b : Body) (queue : List ServerFrame) (is_open : Bool)
      (s : Client)
      → other ≢ id
      → IsStuck id left s
      → IsStuck id left (forward other f b queue is_open s)
  unfolding forward
  forward-IsStuck other f (Body.stream_end e) queue is_open s apart h =
      end_stream-IsStuck other s apart h
  forward-IsStuck other f (Body.error m) queue is_open s apart h =
      if-IsStuck is_open _ _ (deliver-IsStuck other f queue s apart h)
        (end_stream-IsStuck other s apart h)
  forward-IsStuck other f (Body.response n) queue is_open s apart h =
      if-IsStuck is_open _ _ (deliver-IsStuck other f queue s apart h)
        (end_stream-IsStuck other s apart h)

  poll_other :
      (c : Call) (queue : List ServerFrame) (is_open : Bool) (s : Client)
      → c.id ≢ id
      → IsStuck id left s
      → IsStuck id left (poll c queue is_open s)
  unfolding poll
  poll_other c (f ∷ queue) is_open s apart h =
      if-IsStuck c.is_stream _ _ (forward-IsStuck c.id f f.body queue is_open s apart h)
        (return-IsStuck c.id (check_error f f.body) s apart h)
  poll_other c [] is_open s apart h = if-IsStuck (contains s.pending c.id) _ _ h (
      if-IsStuck c.is_stream _ _ (end_stream-IsStuck c.id s apart h)
        (return-IsStuck c.id Reply.closed s apart h))

  -- The task of the call itself waits on.
  poll_own :
      (c : Call) (is_open : Bool) (s : Client)
      → c.id ≡ id
      → c.queue ≡ []
      → IsStuck id left s
      → IsStuck id left (poll c c.queue is_open s)
  unfolding poll IsStuck
  poll_own c is_open s same empty h =
      let registered : contains s.pending c.id ≡ true = ap (contains s.pending) same ∙ h.1 in
      rw empty (rw registered h)

  poll-IsStuck :
      (c : Call) (is_open : Bool) (s : Client)
      → Waits id c
      → IsStuck id left s
      → IsStuck id left (poll c c.queue is_open s)
  poll-IsStuck c is_open s w h = elim (Bool-cases (c.id == id)) [
    | inl own ↦ let same = (==_iff c.id id).0 own in poll_own c is_open s same (w same) h
    | inr other ↦ poll_other c c.queue is_open s (λ e. ground (arith, e, other)) h
  ]

  on_call-IsStuck :
      (o : Option Call) (f : Call → Client) (s : Client)
      → ((c : Call) → o ≡ some c → IsStuck id left (f c))
      → IsStuck id left s
      → IsStuck id left (on_call o f s)
  on_call-IsStuck none f s h k = k
  on_call-IsStuck (some c) f s h k = h c refl

  after_send-IsStuck :
      (succeeded : Bool) (c : Call) (s : Client)
      → (c.id == id && not succeeded) ≡ false
      → IsStuck id left s
      → IsStuck id left (after_send succeeded c s)
  unfolding after_send IsStuck
  after_send-IsStuck true c s fine (r, p, w, n, b) =
      (r, p, All-mapped (mark_sent c.id) s.calls (mark_sent-Waits c.id) w, n, b)
  after_send-IsStuck false c s fine h =
      if-IsStuck c.is_stream _ _ (give_up-IsStuck c.id s h)
        (return-IsStuck c.id Reply.send_failed s (λ e. ground (arith, e, fine)) h)

  begin-IsStuck :
      (is_stream : Bool) (s : Client)
      → IsStuck id (suc left) s
      → IsStuck id left (begin is_stream s)
  unfolding begin IsStuck
  begin-IsStuck is_stream s (r, p, w, n, (taken, room)) =
      let apart : s.next_id ≢ id = λ e. omega arith in
      let next : (s.next_id + 1) % 2 ^ 64 ≡ s.next_id + 1 = omega arith in
      (
        r,
        rw (apart_test s.next_id apart) (remove-keeps s.next_id s.pending apart p),
        ((λ e. refl), w),
        n,
        rw next (omega arith, omega arith),
      )

  less_room : (s : Client) → IsStuck id (suc left) s → IsStuck id left s
  unfolding IsStuck
  less_room s (r, p, w, n, (taken, room)) = (r, p, w, n, (taken, omega arith))

  -- What only happens while the read loop runs does not happen.
  off-IsStuck :
      (b : Bool) (s t : Client)
      → b ≡ false
      → IsStuck id left s
      → IsStuck id left (if b then t else s)
  off-IsStuck true s t e h = cc
  off-IsStuck false s t e h = h

  step-IsStuck :
      (e : Event) (s : Client) → IsSent id e → IsStuck id (suc left) s → IsStuck id left (step e s)
  unfolding step receive stop_reading poll_if_sent IsStuck
  step-IsStuck (Event.called is_stream) s fine h = begin-IsStuck is_stream s h
  step-IsStuck (Event.sent other succeeded) s fine h =
      let k = less_room s h in
      on_call-IsStuck (find (is_call other) s.calls) _ s
        (λ c e. if-IsStuck c.sent s (after_send succeeded c s) k (
          after_send-IsStuck succeeded c s
            (ap (λ i. i == id && not succeeded)
                ((==_iff c.id other).0 (find-some (is_call other) s.calls c e))
              ∙ fine)
            k))
        k
  step-IsStuck (Event.frame f) s fine h =
      off-IsStuck (s.reading && contains s.pending f.id) s _ (ground (arith, h.0)) (less_room s h)
  step-IsStuck Event.reader_ended s fine h = off-IsStuck s.reading s _ h.0 (less_room s h)
  step-IsStuck (Event.polled other is_open) s fine h =
      let k = less_room s h in
      on_call-IsStuck (find (is_call other) s.calls) _ s
        (λ c e.
          if-IsStuck c.sent _ s
            (poll-IsStuck c is_open s (All-find (Waits id) (is_call other) s.calls c e h.2) k) k)
        k

run-IsStuck :
    (id : ℕ) (es : List Event) (s : Client)
    → All (IsSent id) es
    → IsStuck id (length es) s
    → has_result id (run es s) ≡ false
unfolding run IsStuck
run-IsStuck id [] s fine h = h.3
run-IsStuck id (e ∷ es) s (f, fine) h =
    run-IsStuck id es (step e s) fine (step-IsStuck id (length es) e s f h)

-- No call of this id is known, and none has returned.
abbrev pub IsNew : ℕ → Client → Type 0
IsNew id s = (find (is_call id) s.calls ≡ none) × (has_result id s ≡ false)

new-Waits : (id : ℕ) (cs : List Call) → find (is_call id) cs ≡ none → All (Waits id) cs
new-Waits id cs h =
    All-map (λ c. is_call id c ≡ false) cs (λ c e same. ground (arith, e, same))
      (find-none (is_call id) cs h)

-- A unary call that begins after the read loop has ended, while ids have not started again, never returns, whatever
-- happens on the connection, unless its request cannot be sent.
pub begun-never_returns :
    (s : Client) (es : List Event)
    → s.reading ≡ false
    → IsNew s.next_id s
    → s.next_id + 1 + length es < 2 ^ 64
    → All (IsSent s.next_id) es
    → has_result s.next_id (run (Event.called false ∷ es) s) ≡ false
unfolding run step begin IsStuck
begun-never_returns s es ended (unknown, none_yet) room fine =
    let next : (s.next_id + 1) % 2 ^ 64 ≡ s.next_id + 1 = omega arith in
    run-IsStuck s.next_id es (begin false s) fine (
      ended,
      ground arith,
      ((λ e. refl), new-Waits s.next_id s.calls unknown),
      none_yet,
      rw next (omega arith, omega arith),
    )
