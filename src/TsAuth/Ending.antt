-- ===== src/TsAuth/Ending.antt =====
-- When WaitRunning of internal/tsauth/wait.go returns.
use ts_restic_server.Common.{
  ◌≡◌, refl, Bool, true, false, ◌&&◌, ◌||◌, not, Option, none, some, List, [], ◌∷◌, arith, any,
}
use ts_restic_server.Common.Text.{Bytes}
use ts_restic_server.TsAuth.Wait.{
  NodeState, running, Event, notified, next_failed, WaitOptions, Waited, still_waiting, login_url,
  wait_running,
}

abbrev pub is_given : Option Bytes → Bool
is_given none = false
is_given (some _) = true

abbrev pub runs : Option NodeState → Bool
runs (some running) = true
runs _ = false

-- The event ends the wait: an error of the bus or the backend, a login URL where no interactive login is
-- allowed, or the state Running.
abbrev pub is_end : WaitOptions → Event → Bool
is_end opts next_failed = true
is_end opts (notified n) =
    is_given n.err_message
    || (is_given (login_url n.browse_to_url) && not opts.allow_interactive)
    || runs n.state

abbrev pub is_waiting : Waited → Bool
is_waiting still_waiting = true
is_waiting _ = false

-- WaitRunning returns exactly if one of the events ends the wait.
pub wait_running-ends :
    (opts : WaitOptions) (reported : Bool) (events : List Event)
    → is_waiting (wait_running opts reported events).0 ≡ not (any (is_end opts) events)
unfolding wait_running
wait_running-ends opts reported [] = refl
wait_running-ends opts reported (next_failed ∷ events) = refl
wait_running-ends opts reported (notified n ∷ events) =
    ground (arith, wait_running-ends opts true events, wait_running-ends opts reported events)
