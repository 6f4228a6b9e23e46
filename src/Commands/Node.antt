-- ===== src/Commands/Node.antt =====
-- cmd/serve.go: the start of the Tailscale node. What the calls of tsnet answer is a parameter; the calls
-- are recorded in their order.
use ts_restic_server.Common.{
  Bool, true, false, ◌||◌, not, none, some, List, [], ◌∷◌, ◌⊎◌, inl, inr, if◌then◌else◌,
}
use ts_restic_server.Common.Text.{Bytes}
use ts_restic_server.Settings.{Config}
use ts_restic_server.TsAuth.{
  Sources, Key, KeyError, Warning, is_nil, resolve_auth_key, check_serve_startup, serve_warnings,
}
use ts_restic_server.TsAuth.Wait.{
  WaitOptions, Waited, is_running, bus_failed, needs_login, still_waiting, backend_failed,
}

-- os.MkdirAll, the force of a login, LocalClient of a node with this name, directory and key, the watch of
-- its bus, and Close.
pub data NodeCall : Type 0 where
  made_dir : Bytes → NodeCall
  forced_login watched closed : NodeCall
  started : Bytes → Bytes → Bytes → NodeCall

-- Which of the calls succeed.
pub record Outcomes : Type 0 where
  pub mkdir_ok : Bool
  pub local_client_ok : Bool
  pub watch_ok : Bool

pub data StartError : Type 0 where
  key_rejected : KeyError → StartError
  no_state mkdir_failed start_failed watch_failed : StartError

-- What serve resolves the key from; the raw value is the one before placeholders are replaced.
abbrev pub serve_sources : (Bytes → Bytes) → Config → Bytes → Sources
serve_sources getenv c raw = record {
  flag = [];
  stdin = none;
  getenv = some getenv;
  config = c.tailscale.auth_key;
  config_raw = raw;
}

-- What startTailscale returns, with the key in place of the node, and the calls and warnings it made.
pub record Start : Type 0 where
  pub result : StartError ⊎ Key
  pub calls : List NodeCall
  pub warnings : List Warning

abbrev pub stopped : StartError → List NodeCall → List Warning → Start
stopped e calls warnings = record { result = inl e; calls = calls; warnings = warnings }

-- startTailscale once the key is resolved
unfoldable pub start_with_key : Config → Bool → Outcomes → Key → Start
unfolding check_serve_startup serve_warnings
start_with_key c state_exists o key =
    let dir = c.tailscale.state_dir in
    let warnings = serve_warnings state_exists key in
    let node = started c.tailscale.hostname dir key.value in
    if not (check_serve_startup state_exists key c.tailscale.interactive_login)
    then stopped no_state [] warnings
    else if not o.mkdir_ok
    then stopped mkdir_failed (made_dir dir ∷ []) warnings
    else if not o.local_client_ok
    then stopped start_failed (made_dir dir ∷ node ∷ closed ∷ []) warnings
    else if not o.watch_ok
    then stopped watch_failed (made_dir dir ∷ node ∷ watched ∷ closed ∷ []) warnings
    else record {
      result = inr key;
      calls = made_dir dir ∷ node ∷ watched ∷ [];
      warnings = warnings;
    }

-- startTailscale
unfoldable pub start_tailscale : (Bytes → Bytes) → Bytes → Config → Bool → Outcomes → Start
unfolding resolve_auth_key start_with_key
start_tailscale getenv raw c state_exists o = elim (resolve_auth_key (serve_sources getenv c raw)) [
  | inl e ↦ stopped (key_rejected e) [] []
  | inr key ↦ start_with_key c state_exists o key
]

-- the options of the watcher
abbrev pub watch_options : Bool → Key → WaitOptions
watch_options interactive key = record {
  allow_interactive = interactive || not (is_nil key.value);
  has_on_auth_url = false;
  has_on_needs_machine_auth = true;
}

-- What the watcher does with the result of WaitRunning: it cancels serve, or logs, or neither.
pub data WatchAction : Type 0 where
  cancelled logged_warning logged_running nothing : WatchAction

unfoldable pub watch_action : Waited → Bool → WatchAction
watch_action needs_login context_done = cancelled
watch_action is_running context_done = logged_running
watch_action bus_failed context_done = if context_done then nothing else logged_warning
watch_action (backend_failed m) context_done = if context_done then nothing else logged_warning
watch_action still_waiting context_done = nothing
