-- ===== src/Session/Teardown.antt =====
-- daemon/src/ipc/session.rs: dropping a connection tears down the streams of a client that does not
-- use a call id twice.
use netdiag.Prelude.{
  ℕ, ◌≡◌, refl, ◌⊎◌, inl, inr, Bool, true, false, List, [], ◌∷◌, any, All, any_none,
}
use netdiag.Session.Model.{State, Task, initial}
use netdiag.Session.Serve.{Event, step, run}
use netdiag.Session.Tracked.{is_stream}
use netdiag.Session.Tidy.{IsTidy}
use netdiag.Session.Fresh.{event_ids, FreshIds}
use netdiag.Session.Tasks.{step-IsTidy}

run-IsTidy :
    (used : List ℕ) (events : List Event) (s : State)
    → FreshIds used events
    → IsTidy used s
    → (ids : List ℕ) × IsTidy ids (run events s)
unfolding run
run-IsTidy used [] s fresh h = (used, h)
run-IsTidy used (e ∷ events) s (fresh, rest) h =
    run-IsTidy (event_ids e used) events (step e s) rest (step-IsTidy used e s fresh h)

-- However the reads of a connection and the steps of its tasks are interleaved, where the client
-- uses no id for two streaming calls, no stream task is alive once the read loop has ended.
pub run_torn_down :
    (events : List Event)
    → FreshIds [] events
    → ((run events initial).reading ≡ true) ⊎ (any is_stream (run events initial).tasks ≡ false)
run_torn_down events fresh =
    let (ids, (tracked, apart, pending, used, live)) =
      run-IsTidy [] events initial fresh (tt, tt, tt, tt, inl refl) in
    torn_down (run events initial).tasks live
  where
    torn_down :
        {reading : Bool} (tasks : List Task)
        → (reading ≡ true) ⊎ All (λ t. is_stream t ≡ false) tasks
        → (reading ≡ true) ⊎ (any is_stream tasks ≡ false)
    torn_down tasks (inl on) = inl on
    torn_down tasks (inr quiet) = inr (any_none is_stream tasks quiet)
