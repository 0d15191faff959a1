-- ===== src/Session/Model.antt =====
-- proto/netdiag/v1/service.proto and daemon/src/ipc/session.rs: the frames of a connection and its
-- state. A request or a response stands for its kind; what session.rs reads of it is an argument.
use netdiag.Prelude.{ℕ, ◌+◌, String, Bool, true, false, Option, none, List, [], ◌∷◌, ◌++◌}

pub data ErrorCode : Type 0 where
  unspecified invalid_argument unimplemented kernel permission_denied not_found : ErrorCode
  resource_exhausted internal : ErrorCode

pub record Error : Type 0 where
  pub code : ErrorCode
  pub message : String
  pub detail : String

-- `Error::new`, `Error::with_detail`, `Error::invalid` and `Error::not_found`
abbrev pub new_error : ErrorCode → String → Error
new_error code message = record { code = code; message = message; detail = "" }

abbrev pub with_detail : String → Error → Error
with_detail detail e = record { code = e.code; message = e.message; detail = detail }

abbrev pub invalid_error : String → Error
invalid_error message = new_error ErrorCode.invalid_argument message

abbrev pub not_found_error : String → Error
not_found_error message = new_error ErrorCode.not_found message

pub data Unary : Type 0 where
  get_snapshot get_interfaces get_routes get_routing_rules get_neighbors get_sockets : Unary
  get_app_network_state route_lookup push_framework_event : Unary

pub data Streaming : Type 0 where
  diagnose watch_network watch_routes watch_sockets start_capture : Streaming

pub data Request : Type 0 where
  -- the client's protocol version
  hello : ℕ → Request
  -- the id of the call to stop
  cancel : ℕ → Request
  -- the id of the capture to stop
  stop_capture : ℕ → Request
  unary : Unary → Request
  streaming : Streaming → Request

pub data Response : Type 0 where
  -- the protocol version that is negotiated
  hello : ℕ → Response
  -- `was_active`
  cancelled : Bool → Response
  result : Unary → Response
  item : Streaming → Response
  failure : Error → Response
  stream_end : String → ℕ → Option Error → Response
  capture_finished : ℕ → String → Response

pub record ServerFrame : Type 0 where
  pub id : ℕ
  pub body : Response

-- What `codec::read_frame` returns: a frame, the end of the stream, or the text of an error.
pub data Read : Type 0 where
  frame : ℕ → Option Request → Read
  closed : Read
  malformed : String → Read

pub record StreamOutcome : Type 0 where
  pub reason : String
  pub items_sent : ℕ
  pub error : Option Error

-- A spawned task: it answers once, or runs a streaming call, or has sent the `StreamEnd` of one and
-- has its id still to remove.
pub data Stage : Type 0 where
  answering : Unary → Stage
  running : Streaming → Stage
  ended : Stage

pub record Task : Type 0 where
  pub handle : ℕ
  pub id : ℕ
  pub stage : Stage

-- `tasks` are those that are alive. `inserting` is the stream task that the read loop has spawned
-- and not yet registered. `sent` is what was queued for the writer, oldest first. Handles count up.
pub record State : Type 0 where
  pub streams : List (ℕ × ℕ)
  pub tasks : List Task
  pub inserting : Option Task
  pub next_handle : ℕ
  pub greeted : Bool
  pub handled : ℕ
  pub sent : List ServerFrame
  pub reading : Bool

abbrev pub initial : State
initial = record {
  streams = [];
  tasks = [];
  inserting = none;
  next_handle = 0;
  greeted = false;
  handled = 0;
  sent = [];
  reading = true;
}

-- The state with one field replaced.
abbrev pub set_streams : List (ℕ × ℕ) → State → State
set_streams streams s = record s { streams = streams }

abbrev pub set_tasks : List Task → State → State
set_tasks tasks s = record s { tasks = tasks }

abbrev pub set_inserting : Option Task → State → State
set_inserting inserting s = record s { inserting = inserting }

abbrev pub greet : State → State
greet s = record s { greeted = true }

abbrev pub count : State → State
count s = record s { handled = s.handled + 1 }

abbrev pub stop_reading : State → State
stop_reading s = record s { reading = false }

-- `Responder::reply`, `Responder::error` and `Responder::end_stream`
abbrev pub reply : ℕ → Response → State → State
reply id body s = record s { sent = s.sent ++ record { id = id; body = body } ∷ [] }

abbrev pub error : ℕ → Error → State → State
error id e = reply id (Response.failure e)

abbrev pub end_stream : ℕ → String → ℕ → Option Error → State → State
end_stream id reason items_sent e = reply id (Response.stream_end reason items_sent e)
