-- ===== src/Commands/Init.antt =====
-- cmd/init.go: the registration of the node. What the calls of tsnet answer is a parameter; the calls are
-- recorded in their order, the deferred Close included.
use ts_restic_server.Common.{
  Bool, true, false, ◌&&◌, not, Option, none, some, List, [], ◌∷◌, ◌++◌, ◌⊎◌, inl, inr,
  if◌then◌else◌,
}
use ts_restic_server.Common.Text.{Bytes, codes}
use ts_restic_server.Storage.{Reader}
use ts_restic_server.Settings.{Config}
use ts_restic_server.Config.{ConfigError, validate_for_init}
use ts_restic_server.Config.Load.{LoadError}
use ts_restic_server.TsAuth.{Sources, Key, KeyError, is_nil, is_config, resolve_auth_key}
use ts_restic_server.TsAuth.Wait.{WaitOptions, Event, Waited, is_running, needs_login, wait_running}
use ts_restic_server.Commands.Node.{
  NodeCall, made_dir, forced_login, started, watched, closed, Outcomes,
}

-- The flags of the command, and what its calls answer.
pub record InitEnv : Type 0 where
  pub config_failed : Bool
  -- config.Load(true)
  pub loaded : LoadError ⊎ Config
  pub flag_key : Bytes
  -- standard input, where the key is read from it
  pub stdin : Option Reader
  pub force : Bool
  pub getenv : Bytes → Bytes
  pub raw_auth_key : Bytes
  pub state_exists : Bytes → Bool
  pub is_root : Bool
  pub outcomes : Outcomes
  pub events : List Event
  -- ctx.Err() once the wait has ended
  pub timed_out : Bool
  pub status : Option (List Bytes)
  pub cert_domains : List Bytes
  pub cert_pair : Bytes → Bool

pub data InitError : Type 0 where
  config_error force_without_key no_key_and_no_state mkdir_failed start_failed : InitError
  watch_failed state_invalid key_not_used not_up_in_time wait_failed status_failed : InitError
  no_domain : InitError
  load_error : LoadError → InitError
  invalid : ConfigError → InitError
  key_rejected : KeyError → InitError
  cert_failed : Bytes → InitError

-- The line that is printed: whether the node was there before, the domain and the address.
pub record Registered : Type 0 where
  pub already : Bool
  pub domain : Bytes
  pub ip : Bytes

pub data InitWarning : Type 0 where
  key_in_config running_as_root : InitWarning

pub record Init : Type 0 where
  pub result : InitError ⊎ Registered
  pub calls : List NodeCall
  pub warnings : List InitWarning

abbrev pub init_sources : InitEnv → Config → Sources
init_sources env c = record {
  flag = env.flag_key;
  stdin = env.stdin;
  getenv = some env.getenv;
  config = c.tailscale.auth_key;
  config_raw = env.raw_auth_key;
}

abbrev pub failed : InitError → List NodeCall → List InitWarning → Init
failed e calls warnings = record { result = inl e; calls = calls; warnings = warnings }

abbrev pub init_warnings : InitEnv → Key → List InitWarning
init_warnings env key =
    (if is_config key.source then key_in_config ∷ [] else [])
    ++ (if env.is_root then running_as_root ∷ [] else [])

-- the error of the wait
unfoldable pub wait_error : InitEnv → Key → Waited → Option InitError
wait_error env key is_running = none
wait_error env key needs_login = if is_nil key.value then some state_invalid else some key_not_used
wait_error env key other = if env.timed_out then some not_up_in_time else some wait_failed

abbrev pub first_ip : List Bytes → Bytes
first_ip [] = codes "-"
first_ip (ip ∷ ips) = ip

-- the certificate of the first domain
unfoldable pub certified : InitEnv → Bool → List Bytes → List Bytes → InitError ⊎ Registered
certified env state_existed ips [] = inl no_domain
certified env state_existed ips (domain ∷ domains) =
    if not (env.cert_pair domain)
    then inl (cert_failed domain)
    else inr
        (record { already = state_existed && not env.force; domain = domain; ip = first_ip ips })

-- runInit once the node is up
unfoldable pub registered : InitEnv → Bool → InitError ⊎ Registered
unfolding certified
registered env state_existed = elim env.status [
  | none ↦ inl status_failed
  | some ips ↦ certified env state_existed ips env.cert_domains
]

-- runInit after WaitRunning
unfoldable pub after_wait : InitEnv → Bool → Key → Waited → InitError ⊎ Registered
unfolding wait_error registered
after_wait env state_existed key waited = elim (wait_error env key waited) [
  | some e ↦ inl e
  | none ↦ registered env state_existed
]

abbrev pub wait_options : WaitOptions
wait_options = record {
  allow_interactive = false;
  has_on_auth_url = false;
  has_on_needs_machine_auth = true;
}

-- runInit once it may start a node
unfoldable pub start_node : InitEnv → Config → Bool → Key → Init
unfolding after_wait wait_running
start_node env c state_existed key =
    let dir = c.tailscale.state_dir in
    let forced = made_dir dir ∷ (if env.force then forced_login ∷ [] else []) in
    let node = forced ++ started c.tailscale.hostname dir key.value ∷ [] in
    let warnings = init_warnings env key in
    if not env.outcomes.mkdir_ok
    then failed mkdir_failed (made_dir dir ∷ []) warnings
    else if not env.outcomes.local_client_ok
    then failed start_failed (node ++ closed ∷ []) warnings
    else if not env.outcomes.watch_ok
    then failed watch_failed (node ++ watched ∷ closed ∷ []) warnings
    else record {
      result = after_wait env state_existed key (wait_running wait_options false env.events).0;
      calls = node ++ watched ∷ closed ∷ [];
      warnings = warnings;
    }

-- runInit once the key is resolved
unfoldable pub init_with_key : InitEnv → Config → Bool → Key → Init
unfolding start_node
init_with_key env c state_existed key =
    if env.force && is_nil key.value
    then failed force_without_key [] []
    else if not state_existed && is_nil key.value
    then failed no_key_and_no_state [] []
    else start_node env c state_existed key

-- runInit once the configuration is checked
unfoldable pub init_checked : InitEnv → Config → Init
unfolding resolve_auth_key init_with_key
init_checked env c = elim (resolve_auth_key (init_sources env c)) [
  | inl e ↦ failed (key_rejected e) [] []
  | inr key ↦ init_with_key env c (env.state_exists c.tailscale.state_dir) key
]

unfoldable pub init_loaded : InitEnv → Config → Init
unfolding validate_for_init init_checked
init_loaded env c = elim (validate_for_init c) [
  | some e ↦ failed (invalid e) [] []
  | none ↦ init_checked env c
]

-- runInit with the result of Load
abbrev pub init_of : InitEnv → LoadError ⊎ Config → Init
init_of env (inl e) = failed (load_error e) [] []
init_of env (inr c) = init_loaded env c

-- runInit
unfoldable pub run_init : InitEnv → Init
unfolding init_loaded
run_init env = if env.config_failed then failed config_error [] [] else init_of env env.loaded
