-- ===== src/TsAuth/Wait.antt =====
-- internal/tsauth/wait.go: waiting for the node to run. The notifications are a list; where it ends
-- the code would go on waiting. ipn.Notify and ipn.State are Tailscale's; the code tells apart
-- Running, NeedsMachineAuth and any other state.
use ts_restic_server.Common.{
  ℕ, ◌+◌, ◌≤◌, ◌≡◌, refl, Bool, true, false, ◌&&◌, not, Option, none, some, List, [], ◌∷◌, ◌++◌,
  arith, if◌then◌else◌,
}
use ts_restic_server.Common.Text.{Bytes}
use ts_restic_server.TsAuth.{is_nil}

pub data NodeState : Type 0 where
  running needs_machine_auth other_state : NodeState

pub record Notify : Type 0 where
  pub err_message : Option Bytes
  pub browse_to_url : Option Bytes
  pub state : Option NodeState

-- What `next` returns: a notification, or its error.
pub data Event : Type 0 where
  notified : Notify → Event
  next_failed : Event

-- WaitOptions: the flag, and whether each callback is set.
pub record WaitOptions : Type 0 where
  pub allow_interactive : Bool
  pub has_on_auth_url : Bool
  pub has_on_needs_machine_auth : Bool

pub data Callback : Type 0 where
  auth_url : Bytes → Callback
  machine_auth : Callback

pub data Waited : Type 0 where
  is_running bus_failed needs_login still_waiting : Waited
  backend_failed : Bytes → Waited

-- BrowseToURL, if it is not empty
abbrev pub login_url : Option Bytes → Option Bytes
login_url none = none
login_url (some url) = if is_nil url then none else some url

abbrev pub before : List Callback → Waited × List Callback → Waited × List Callback
before calls (w, later) = (w, calls ++ later)

abbrev pub calls_if : Bool → Callback → List Callback
calls_if true call = call ∷ []
calls_if false call = []

-- the switch on the state; `go` is the rest of the loop
abbrev pub on_state :
    WaitOptions → Bool → Option NodeState → (Bool → Waited × List Callback) → Waited × List Callback
on_state opts reported none go = go reported
on_state opts reported (some running) go = (is_running, [])
on_state opts reported (some needs_machine_auth) go =
    before (calls_if (not reported && opts.has_on_needs_machine_auth) machine_auth) (go true)
on_state opts reported (some other_state) go = go reported

-- the body of the loop behind the error message
abbrev pub on_url : WaitOptions → Option Bytes → Waited × List Callback → Waited × List Callback
on_url opts none rest = rest
on_url opts (some url) rest =
    if not opts.allow_interactive
    then (needs_login, [])
    else before (calls_if opts.has_on_auth_url (auth_url url)) rest

abbrev pub on_notify :
    WaitOptions
    → Bool
    → Notify
    → Option Bytes
    → (Bool → Waited × List Callback)
    → Waited × List Callback
on_notify opts reported n (some message) go = (backend_failed message, [])
on_notify opts reported n none go =
    on_url opts (login_url n.browse_to_url) (on_state opts reported n.state go)

-- WaitRunning, with the value of machineAuthReported
unfoldable pub wait_running : WaitOptions → Bool → List Event → Waited × List Callback
wait_running opts reported [] = (still_waiting, [])
wait_running opts reported (next_failed ∷ events) = (bus_failed, [])
wait_running opts reported (notified n ∷ events) =
    on_notify opts reported n n.err_message (λ r. wait_running opts r events)

abbrev pub is_machine_auth : Callback → Bool
is_machine_auth machine_auth = true
is_machine_auth _ = false

-- How often a callback of one kind was made.
abbrev pub count_calls : (Callback → Bool) → List Callback → ℕ
count_calls p [] = 0
count_calls p (x ∷ xs) = (if p x then 1 else 0) + count_calls p xs

-- Whatever is notified, the machine approval is reported at most once.
pub machine_auth_once :
    (opts : WaitOptions) (reported : Bool) (events : List Event)
    → count_calls is_machine_auth (wait_running opts reported events).1
      ≤ (if reported then 0 else 1)
unfolding wait_running
machine_auth_once opts reported [] = ground arith
machine_auth_once opts reported (next_failed ∷ events) = ground arith
machine_auth_once opts reported (notified n ∷ events) =
    ground (arith, machine_auth_once opts true events, machine_auth_once opts reported events)

abbrev pub is_auth_url : Callback → Bool
is_auth_url (auth_url _) = true
is_auth_url _ = false

-- Where no interactive login is allowed, no login URL is handed out.
pub no_login_url :
    (opts : WaitOptions) (reported : Bool) (events : List Event)
    → opts.allow_interactive ≡ false
    → count_calls is_auth_url (wait_running opts reported events).1 ≡ 0
unfolding wait_running
no_login_url opts reported [] h = refl
no_login_url opts reported (next_failed ∷ events) h = refl
no_login_url opts reported (notified n ∷ events) h =
    ground (arith, no_login_url opts true events, no_login_url opts reported events)
