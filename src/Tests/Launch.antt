-- ===== src/Tests/Launch.antt =====
-- Tests of cmd and of the loading of the configuration.
use ts_restic_server.Common.{
  arith, ◌≡◌, refl, inr, true, false, Option, none, some, List, [], ◌∷◌, if◌then◌else◌,
}
use ts_restic_server.Common.Text.{Bytes, codes, eqs, has_prefix, trim_space, contains}
use ts_restic_server.Settings.{AclConfig, Config}
use ts_restic_server.Common.Int64.{lt64}
use ts_restic_server.Config.{
  Parsers, validate, validate_for_init, check_storage, validate_acl, valid_permission,
  known_backend, max_request_body_bytes, check_proxies, check_rules,
}
use ts_restic_server.Config.Resolve.{
  resolve_config, resolve_acl, resolve_rule, resolve_tailscale, resolve_storage, resolve_s3,
  resolve_webdav, resolve_rclone, resolve_smb, resolve_nfs,
}
use ts_restic_server.Config.EnvVars.{Lookup, substitute_string}
use ts_restic_server.Config.EnvVars.Pieces.{
  Piece, IsPiece, plain, variable, text_of, values_of, substitute_string-text_of,
}
use ts_restic_server.Config.Load.{Inputs, default_config, default_acl, is_unset, chosen_acl, load}
use ts_restic_server.Config.Loaded.{IsAclOf, IsBlank, load_lem}
use ts_restic_server.TsAuth.{Key, source_none, resolve_auth_key, config_key, env_key}
use ts_restic_server.TsAuth.Wait.{Event, notified, running, wait_running}
use ts_restic_server.Commands.{
  filesystem_backend, direct, plain_identity, build_backend, build_acl_engine, build_ip_extractor,
  build_identity,
}
use ts_restic_server.Commands.Node.{
  Outcomes, serve_sources, start_tailscale, watch_options, cancelled, watch_action,
}
use ts_restic_server.Commands.Started.{
  IsCareful, left_running, succeeded, start_tailscale-IsCareful,
}
use ts_restic_server.Commands.Serve.{ServeEnv, Served, node_of, run_serve}
use ts_restic_server.Commands.Served.{IsServed, run_serve-IsServed, run_serve-unprotected}
use ts_restic_server.Commands.Init.{InitEnv, run_init}
use ts_restic_server.Commands.Registered.{IsCarefulInit, run_init-IsCareful}

abbrev lookup_home : Lookup
lookup_home name = if eqs name (codes "HOME") then some (codes "/root") else none

abbrev home_path : List Piece
home_path = plain (codes "at ") ∷ variable (codes "HOME") ∷ plain (codes "/x") ∷ []

substitute_string-text_of_example :
    substitute_string lookup_home false (text_of home_path) ≡ values_of lookup_home false home_path
substitute_string-text_of_example =
    substitute_string-text_of lookup_home false home_path (at_plain, (home_named, (x_plain, tt)))
  where
    at_plain : IsPiece (plain (codes "at "))
    at_plain = ((λ e. omega arith), ((λ e. omega arith), ((λ e. omega arith), tt)))

    home_named : IsPiece (variable (codes "HOME"))
    home_named = (
      (λ e. cc),
      ((λ e. omega arith), ((λ e. omega arith), ((λ e. omega arith), ((λ e. omega arith), tt)))),
    )

    x_plain : IsPiece (plain (codes "/x"))
    x_plain = ((λ e. omega arith), ((λ e. omega arith), tt))

home_replaced :
    substitute_string lookup_home false (codes "at ${HOME}/x") ≡ inr (codes "at /root/x")
unfolding substitute_string eqs
home_replaced = refl

abbrev parsers : Parsers
parsers = record { parse_size = λ s. some 1; valid_cidr = λ s. true; valid_host_port = λ s. true }

-- Nothing is configured but the memory backend and one rule.
abbrev one_rule : AclConfig
one_rule = record default_acl {
  default_role = codes "deny";
  rules =
      (record {
        paths = codes "/a" ∷ [];
        identities = codes "*" ∷ [];
        permission = codes "read-only";
      })
      ∷ [];
}

abbrev inputs_with : Option AclConfig → Inputs
inputs_with acl = record {
  unmarshalled = some (record default_config { acl = acl });
  read_file = λ path. none;
  parse_yaml = λ text. none;
  lookup = lookup_home;
  parsers = parsers;
}

abbrev with_rule : Config
with_rule = record default_config { acl = some one_rule }

loads : load (inputs_with (some one_rule)) false ≡ inr with_rule
unfolding load resolve_config resolve_acl resolve_rule resolve_tailscale resolve_storage resolve_s3
    resolve_webdav resolve_rclone resolve_smb resolve_nfs substitute_string chosen_acl is_unset
    validate check_storage validate_acl valid_permission eqs has_prefix lt64 known_backend
    max_request_body_bytes check_proxies check_rules
loads = refl

load_lem_example :
    (given : Config) × ((inputs_with (some one_rule)).unmarshalled ≡ some given)
    × IsAclOf (inputs_with (some one_rule)) false given with_rule
    × (validate parsers with_rule ≡ none)
load_lem_example = load_lem (inputs_with (some one_rule)) false with_rule loads

abbrev serve_env : Option AclConfig → ServeEnv
serve_env acl = record {
  config_failed = false;
  env_lenient = false;
  inputs = inputs_with acl;
  logger_ok = true;
  getenv = λ name. [];
  raw_auth_key = [];
  state_exists = λ dir. false;
  node_outcomes = record { mkdir_ok = true; local_client_ok = true; watch_ok = true };
  local_client_again = true;
  construct = λ choice. true;
  stats_opened = λ path. true;
  ui_registered = true;
}

run_serve-IsServed_example :
    IsServed (serve_env (some one_rule)) (run_serve (serve_env (some one_rule)))
run_serve-IsServed_example = run_serve-IsServed (serve_env (some one_rule))

-- No access configuration: what SetDefaults leaves in the ACL is not one.
abbrev loaded_bare : Config
loaded_bare = record default_config { acl = none }

abbrev bare : Served
bare = record {
  config = loaded_bare;
  node = none;
  backend = filesystem_backend (codes "./restic_data");
  instrumented = true;
  tracked = false;
  engine = none;
  extractor = direct;
  identity = plain_identity;
  body_limit = 1;
  verbose_denials = true;
  tls_enabled = false;
  ui_enabled = false;
}

bare_runs : run_serve (serve_env (some default_acl)) ≡ inr bare
unfolding run_serve load resolve_config resolve_acl resolve_rule resolve_tailscale resolve_storage
    resolve_s3 resolve_webdav resolve_rclone resolve_smb resolve_nfs substitute_string chosen_acl
    is_unset validate check_storage validate_acl valid_permission eqs has_prefix lt64 known_backend
    max_request_body_bytes check_proxies check_rules node_of build_backend build_acl_engine
    build_ip_extractor build_identity
bare_runs = refl

run_serve-unprotected_example :
    (given : Config) × ((inputs_with (some default_acl)).unmarshalled ≡ some given)
    × IsBlank given.acl
    × (bare.config.acl_file ≡ [])
run_serve-unprotected_example =
    run_serve-unprotected (serve_env (some default_acl)) bare bare_runs refl

-- A node whose state is there, and which is asked to log in again.
abbrev no_env : Bytes → Bytes
no_env name = []

abbrev all_ok : Outcomes
all_ok = record { mkdir_ok = true; local_client_ok = true; watch_ok = true }

start_tailscale-IsCareful_example :
    IsCareful default_config false
      (resolve_auth_key (serve_sources no_env default_config []))
      (start_tailscale no_env [] default_config false all_ok).calls
    × (left_running false (start_tailscale no_env [] default_config false all_ok).calls
        ≡ succeeded (start_tailscale no_env [] default_config false all_ok).result)
start_tailscale-IsCareful_example = start_tailscale-IsCareful no_env [] default_config false all_ok

abbrev no_auth_key : Key
no_auth_key = record { value = []; source = source_none }

abbrev login_wanted : List Event
login_wanted =
    notified
      (record { err_message = none; browse_to_url = some (codes "https://login"); state = none })
    ∷ []

starts_with_state : (start_tailscale no_env [] default_config true all_ok).result ≡ inr no_auth_key
unfolding start_tailscale resolve_auth_key config_key env_key trim_space contains has_prefix
starts_with_state = refl

cancels :
    watch_action (wait_running (watch_options false no_auth_key) false login_wanted).0 false
    ≡ cancelled
unfolding watch_action wait_running
cancels = refl

abbrev init_env : InitEnv
init_env = record {
  config_failed = false;
  loaded = inr (record default_config { listen_mode = codes "tailscale" });
  flag_key = codes "tskey";
  stdin = none;
  force = false;
  getenv = no_env;
  raw_auth_key = [];
  state_exists = λ dir. false;
  is_root = false;
  outcomes = all_ok;
  events =
      notified (record { err_message = none; browse_to_url = none; state = some running }) ∷ [];
  timed_out = false;
  status = some [];
  cert_domains = codes "node.ts.net" ∷ [];
  cert_pair = λ domain. true;
}

run_init-IsCareful_example : IsCarefulInit init_env (run_init init_env)
run_init-IsCareful_example = run_init-IsCareful init_env

registers :
    (run_init init_env).result
    ≡ inr (record { already = false; domain = codes "node.ts.net"; ip = codes "-" })
unfolding run_init validate_for_init resolve_auth_key trim_space contains has_prefix eqs
    wait_running
registers = refl
