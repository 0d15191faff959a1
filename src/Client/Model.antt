-- ===== src/Client/Model.antt =====
-- crates/netdiag-ipc/src/client.rs: `unary`, `stream`, `read_loop` and `check_error`. The tasks of the client interleave, so
-- what happens on a connection is a list of events, each the progress of one task up to its next
-- await. A channel of the map `pending` is the queue of its call; its sender is there while `pending` has the id.
use netdiag.Prelude.{
  ℕ, ◌+◌, ◌%◌, ◌^◌, String, Bool, true, false, ◌&&◌, Option, none, some, List, [], ◌∷◌, ◌++◌, map,
  ltb, ◌==◌, ◌!=◌, if◌then◌else◌, length, find, filter, contains,
}

-- REPLY_QUEUE_DEPTH
abbrev pub reply_queue_depth : ℕ
reply_queue_depth = 256

pub data Body : Type 0 where
  error : String → Body
  stream_end : Option String → Body
  response : ℕ → Body

pub record ServerFrame : Type 0 where
  pub id : ℕ
  pub body : Body

-- What `unary` returns: the frame, the error of the frame, or that the frame could not be sent or that the
-- connection closed before a reply arrived.
pub data Reply : Type 0 where
  replied refused : ServerFrame → Reply
  send_failed closed : Reply

-- A call whose task has not finished: it is about to send its request (`sent` is false), or receives.
pub record Call : Type 0 where
  pub id : ℕ
  pub is_stream : Bool
  pub sent : Bool
  pub queue : List ServerFrame

-- `reading` says that `read_loop` has not ended; `results` is what `unary` has returned, and `delivered` what the receivers of
-- the streams were sent, both the newest first.
pub record Client : Type 0 where
  pub next_id : ℕ
  pub pending : List ℕ
  pub reading : Bool
  pub calls : List Call
  pub results : List (ℕ × Reply)
  pub delivered : List (ℕ × ServerFrame)

abbrev pub connected : Client
connected = record {
  next_id = 1;
  pending = [];
  reading = true;
  calls = [];
  results = [];
  delivered = [];
}

-- `check_error`
unfoldable pub check_error : ServerFrame → Body → Reply
check_error frame (Body.error message) = Reply.refused frame
check_error frame (Body.stream_end e) = Reply.replied frame
check_error frame (Body.response n) = Reply.replied frame

abbrev pub remove : ℕ → List ℕ → List ℕ
remove id pending = filter (λ i. i != id) pending

abbrev pub forget : ℕ → List Call → List Call
forget id calls = filter (λ c. c.id != id) calls

abbrev pub is_call : ℕ → Call → Bool
is_call id c = c.id == id

-- The id is taken, and the sender of a new channel registered under it.
unfoldable pub begin : Bool → Client → Client
begin is_stream s = record s {
  next_id = (s.next_id + 1) % 2 ^ 64;
  pending = s.next_id ∷ remove s.next_id s.pending;
  calls = record { id = s.next_id; is_stream = is_stream; sent = false; queue = [] } ∷ s.calls;
}

abbrev pub mark_sent : ℕ → Call → Call
mark_sent id c = if c.id == id then record c { sent = true } else c

-- The end of `unary`: the sender is removed, whatever the result.
unfoldable pub return_ : ℕ → Reply → Client → Client
return_ id reply s = record s {
  pending = remove id s.pending;
  calls = forget id s.calls;
  results = (id, reply) ∷ s.results;
}

-- `stream` returns the error of the send, and leaves the sender where it is.
unfoldable pub give_up : ℕ → Client → Client
give_up id s = record s { calls = forget id s.calls }

-- The task of a stream ends.
unfoldable pub end_stream : ℕ → Client → Client
end_stream id s = record s { pending = remove id s.pending; calls = forget id s.calls }

-- The send of a call's request has succeeded or failed.
unfoldable pub after_send : Bool → Call → Client → Client
unfolding return_ give_up
after_send true c s = record s { calls = map (mark_sent c.id) s.calls }
after_send false c s = if c.is_stream then give_up c.id s else return_ c.id Reply.send_failed s

-- `sender.send(frame)`: to a full queue, the read loop waits, and the event has not happened.
abbrev pub enqueue : ServerFrame → Call → Call
enqueue frame c =
    if c.id == frame.id && ltb (length c.queue) reply_queue_depth
    then record c { queue = c.queue ++ frame ∷ [] }
    else c

unfoldable pub receive : ServerFrame → Client → Client
receive frame s =
    if s.reading && contains s.pending frame.id
    then record s { calls = map (enqueue frame) s.calls }
    else s

-- The read loop breaks, at the end of the stream or on an error, and clears the map.
unfoldable pub stop_reading : Client → Client
stop_reading s = if s.reading then record s { reading = false; pending = [] } else s

abbrev pub set_queue : ℕ → List ServerFrame → Call → Call
set_queue id queue c = if c.id == id then record c { queue = queue } else c

unfoldable pub deliver : ℕ → ServerFrame → List ServerFrame → Client → Client
deliver id frame queue s = record s {
  calls = map (set_queue id queue) s.calls;
  delivered = (id, frame) ∷ s.delivered;
}

-- The task of a stream has a frame; `is_open` says whether the receiver of the stream is still there.
unfoldable pub forward : ℕ → ServerFrame → Body → List ServerFrame → Bool → Client → Client
unfolding end_stream deliver
forward id frame (Body.stream_end e) queue is_open s = end_stream id s
forward id frame (Body.error m) queue is_open s =
    if is_open then deliver id frame queue s else end_stream id s
forward id frame (Body.response n) queue is_open s =
    if is_open then deliver id frame queue s else end_stream id s

-- A task that waits for a frame has one, has no sender any more, or waits on.
unfoldable pub poll : Call → List ServerFrame → Bool → Client → Client
unfolding return_ end_stream forward check_error
poll c (frame ∷ queue) is_open s =
    if c.is_stream
    then forward c.id frame frame.body queue is_open s
    else return_ c.id (check_error frame frame.body) s
poll c [] is_open s =
    if contains s.pending c.id
    then s
    else if c.is_stream
    then end_stream c.id s
    else return_ c.id Reply.closed s

unfoldable pub poll_if_sent : Call → Bool → Client → Client
unfolding poll
poll_if_sent c is_open s = if c.sent then poll c c.queue is_open s else s

pub data Event : Type 0 where
  called : Bool → Event
  sent : ℕ → Bool → Event
  frame : ServerFrame → Event
  reader_ended : Event
  polled : ℕ → Bool → Event

abbrev pub on_call : Option Call → (Call → Client) → Client → Client
on_call none f s = s
on_call (some c) f s = f c

unfoldable pub step : Event → Client → Client
unfolding begin after_send receive stop_reading poll_if_sent
step (Event.called is_stream) s = begin is_stream s
step (Event.sent id succeeded) s =
    on_call (find (is_call id) s.calls) (λ c. if c.sent then s else after_send succeeded c s) s
step (Event.frame f) s = receive f s
step Event.reader_ended s = stop_reading s
step (Event.polled id is_open) s =
    on_call (find (is_call id) s.calls) (λ c. poll_if_sent c is_open s) s

unfoldable pub run : List Event → Client → Client
unfolding step
run [] s = s
run (e ∷ es) s = run es (step e s)
