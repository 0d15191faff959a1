-- ===== src/Session/Fresh.antt =====
-- daemon/src/ipc/session.rs: clients that do not use a call id twice, and what reading one of their
-- frames keeps.
use netdiag.Prelude.{
  ℕ, ◌≡◌, inl, inr, Bool, true, false, none, some, List, [], ◌∷◌, arith, ◌==◌, Bool-cases, All-map,
  contains,
}
use netdiag.Session.Model.{error, with_detail, invalid_error, Request, Read, State, count}
use netdiag.Session.Registry.{cancel}
use netdiag.Session.Serve.{Event, dispatch, handle_request, receive, when_greeted}
use netdiag.Session.Tidy.{
  UsesIds, IsTidy, cancel-IsTidy, after_cancel-IsTidy, after_stop-IsTidy, finish-IsTidy,
}
use netdiag.Session.Spawned.{spawn_unary-IsTidy, spawn_stream-IsTidy}

-- The ids that the streaming calls of the events add to `used`, the latest first.
abbrev pub request_ids : ℕ → Request → List ℕ → List ℕ
request_ids id (Request.streaming call) used = id ∷ used
request_ids id (Request.unary call) used = used
request_ids id (Request.stop_capture capture_id) used = used
request_ids id (Request.hello version) used = used
request_ids id (Request.cancel target) used = used

abbrev pub event_ids : Event → List ℕ → List ℕ
event_ids (Event.read (Read.frame id (some request)) stopped) used = request_ids id request used
event_ids (Event.read (Read.frame id none) stopped) used = used
event_ids (Event.read Read.closed stopped) used = used
event_ids (Event.read (Read.malformed detail) stopped) used = used
event_ids Event.registered used = used
event_ids (Event.sends handle) used = used
event_ids (Event.ends handle o) used = used
event_ids (Event.removes handle) used = used
event_ids (Event.answers handle e) used = used

-- No streaming call of the events has an id of `used` or of an earlier one.
abbrev pub FreshRequest : List ℕ → ℕ → Request → Type 0
FreshRequest used id (Request.streaming call) = contains used id ≡ false
FreshRequest used id (Request.unary call) = Unit
FreshRequest used id (Request.stop_capture capture_id) = Unit
FreshRequest used id (Request.hello version) = Unit
FreshRequest used id (Request.cancel target) = Unit

abbrev pub FreshEvent : List ℕ → Event → Type 0
FreshEvent used (Event.read (Read.frame id (some request)) stopped) = FreshRequest used id request
FreshEvent used (Event.read (Read.frame id none) stopped) = Unit
FreshEvent used (Event.read Read.closed stopped) = Unit
FreshEvent used (Event.read (Read.malformed detail) stopped) = Unit
FreshEvent used Event.registered = Unit
FreshEvent used (Event.sends handle) = Unit
FreshEvent used (Event.ends handle o) = Unit
FreshEvent used (Event.removes handle) = Unit
FreshEvent used (Event.answers handle e) = Unit

abbrev pub FreshIds : List ℕ → List Event → Type 0
FreshIds used [] = Unit
FreshIds used (e ∷ events) = FreshEvent used e × FreshIds (event_ids e used) events

more_ids : (used : List ℕ) (id : ℕ) (s : State) → IsTidy used s → IsTidy (id ∷ used) s
more_ids used id s (tracked, apart, pending, ids, live) =
    (tracked, apart, pending, All-map (UsesIds used) s.tasks (λ u h. ground (arith, h)) ids, live)

request-IsTidy :
    (used : List ℕ) (id : ℕ) (request : Request) (s : State)
    → IsTidy used s
    → IsTidy (request_ids id request used) s
request-IsTidy used id (Request.streaming call) s h = more_ids used id s h
request-IsTidy used id (Request.unary call) s h = h
request-IsTidy used id (Request.stop_capture capture_id) s h = h
request-IsTidy used id (Request.hello version) s h = h
request-IsTidy used id (Request.cancel target) s h = h

pub event-IsTidy :
    (used : List ℕ) (e : Event) (s : State) → IsTidy used s → IsTidy (event_ids e used) s
event-IsTidy used (Event.read (Read.frame id (some request)) stopped) s h =
    request-IsTidy used id request s h
event-IsTidy used (Event.read (Read.frame id none) stopped) s h = h
event-IsTidy used (Event.read Read.closed stopped) s h = h
event-IsTidy used (Event.read (Read.malformed detail) stopped) s h = h
event-IsTidy used Event.registered s h = h
event-IsTidy used (Event.sends handle) s h = h
event-IsTidy used (Event.ends handle o) s h = h
event-IsTidy used (Event.removes handle) s h = h
event-IsTidy used (Event.answers handle e) s h = h

module _ (used : List ℕ) (stopped : Bool) (s : State) (on : s.reading ≡ true)
    (idle : s.inserting ≡ none) (h : IsTidy used s) where
  dispatch-IsTidy :
      (id : ℕ) (request : Request)
      → FreshRequest used id request
      → IsTidy (request_ids id request used) (dispatch id request stopped s)
  unfolding dispatch
  dispatch-IsTidy id (Request.unary call) fresh = spawn_unary-IsTidy used id call s on h
  dispatch-IsTidy id (Request.streaming call) fresh =
      spawn_stream-IsTidy used id call s on idle fresh h
  dispatch-IsTidy id (Request.stop_capture capture_id) fresh =
      after_stop-IsTidy used id capture_id stopped (cancel capture_id s)
        (cancel-IsTidy used capture_id s idle h)
  dispatch-IsTidy id (Request.hello version) fresh = h
  dispatch-IsTidy id (Request.cancel target) fresh = h

  when_greeted-IsTidy :
      (greeted : Bool) (id : ℕ) (request : Request)
      → FreshRequest used id request
      → IsTidy (request_ids id request used) (when_greeted greeted id request stopped s)
  when_greeted-IsTidy true id request fresh = dispatch-IsTidy id request fresh
  when_greeted-IsTidy false id request fresh = request-IsTidy used id request s h

  handle_request-IsTidy :
      (id : ℕ) (request : Request)
      → FreshRequest used id request
      → IsTidy (request_ids id request used) (handle_request id request stopped s)
  unfolding handle_request
  handle_request-IsTidy id (Request.hello version) fresh = h
  handle_request-IsTidy id (Request.cancel target) fresh =
      after_cancel-IsTidy used id target (cancel target s) (cancel-IsTidy used target s idle h)
  handle_request-IsTidy id (Request.stop_capture capture_id) fresh =
      when_greeted-IsTidy s.greeted id (Request.stop_capture capture_id) fresh
  handle_request-IsTidy id (Request.unary call) fresh =
      when_greeted-IsTidy s.greeted id (Request.unary call) fresh
  handle_request-IsTidy id (Request.streaming call) fresh =
      when_greeted-IsTidy s.greeted id (Request.streaming call) fresh

pub receive-IsTidy :
    (used : List ℕ) (r : Read) (stopped : Bool) (s : State)
    → s.reading ≡ true
    → s.inserting ≡ none
    → FreshEvent used (Event.read r stopped)
    → IsTidy used s
    → IsTidy (event_ids (Event.read r stopped) used) (receive r stopped s)
unfolding receive
receive-IsTidy used (Read.malformed detail) stopped s on idle fresh h =
    finish-IsTidy used (error 0 (with_detail detail (invalid_error "malformed frame")) s) idle h
receive-IsTidy used Read.closed stopped s on idle fresh h = finish-IsTidy used s idle h
receive-IsTidy used (Read.frame id none) stopped s on idle fresh h = h
receive-IsTidy used (Read.frame id (some request)) stopped s on idle fresh h =
    elim (Bool-cases (id == 0)) [
      | inl unnamed ↦ rw unnamed (request-IsTidy used id request s h)
      | inr named ↦
          rw named (handle_request-IsTidy used stopped (count s) on idle h id request fresh)
    ]
