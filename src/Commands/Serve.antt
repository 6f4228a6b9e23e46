-- ===== src/Commands/Serve.antt =====
-- cmd/serve.go: runServe up to the running server, and internal/server/server.go. Each call of a package
-- that is not modelled is a parameter that says whether it succeeds.
use ts_restic_server.Common.{
  ℕ, Bool, true, false, ◌&&◌, not, Option, none, some, ◌⊎◌, inr, if◌then◌else◌,
}
use ts_restic_server.Common.Text.{Bytes, codes, eqs}
use ts_restic_server.Common.Fallible.{◌>>=◌, ◌>>◌, return, fail_if, or_fail, wrapped}
use ts_restic_server.Settings.{AclConfig, Config}
use ts_restic_server.Config.{max_request_body_bytes}
use ts_restic_server.Config.Load.{Inputs, LoadError, load}
use ts_restic_server.Acl.{Engine}
use ts_restic_server.TsAuth.{Key}
use ts_restic_server.Commands.{
  EngineError, build_acl_engine, IpExtractor, build_ip_extractor, IdentityChoice, build_identity,
  BackendChoice, build_backend,
}
use ts_restic_server.Commands.Node.{Outcomes, StartError, start_tailscale}

-- What runServe reads and what its calls answer.
pub record ServeEnv : Type 0 where
  pub config_failed : Bool
  pub env_lenient : Bool
  pub inputs : Inputs
  pub logger_ok : Bool
  pub getenv : Bytes → Bytes
  -- viper.GetString("tailscale.auth_key")
  pub raw_auth_key : Bytes
  pub state_exists : Bytes → Bool
  pub node_outcomes : Outcomes
  -- LocalClient of the running node, when it is called for the identity middleware
  pub local_client_again : Bool
  pub construct : BackendChoice → Bool
  pub stats_opened : Bytes → Bool
  pub ui_registered : Bool

pub data ServeError : Type 0 where
  config_error logger_error backend_error unknown_backend body_limit_error : ServeError
  load_error : LoadError → ServeError
  start_error : StartError → ServeError
  engine_error : EngineError → ServeError
  extractor_error : Bytes → ServeError

-- The server that runServe has put together.
pub record Served : Type 0 where
  pub config : Config
  pub node : Option Key
  pub backend : BackendChoice
  pub instrumented : Bool
  pub tracked : Bool
  pub engine : Option Engine
  pub extractor : IpExtractor
  pub identity : IdentityChoice
  -- 0 where there is no limit
  pub body_limit : ℕ
  pub verbose_denials : Bool
  pub tls_enabled : Bool
  pub ui_enabled : Bool

-- server.New: what it reads of the configuration
abbrev pub verbose_denials_of : Option AclConfig → Bool
verbose_denials_of none = true
verbose_denials_of (some a) = a.verbose_denials

-- the node in Tailscale mode
unfoldable pub node_of : ServeEnv → Config → ServeError ⊎ Option Key
unfolding start_tailscale eqs
node_of env c =
    if eqs c.listen_mode (codes "tailscale")
    then (do
      key ← wrapped start_error (
          (start_tailscale env.getenv env.raw_auth_key c (env.state_exists c.tailscale.state_dir)
            env.node_outcomes).result)
      return (some key))
    else inr none

abbrev pub client_of : ServeEnv → Option Key → Option Bool
client_of env none = none
client_of env (some key) = some env.local_client_again

-- runServe up to srv.Run
unfoldable pub run_serve : ServeEnv → ServeError ⊎ Served
unfolding load node_of build_backend build_acl_engine build_ip_extractor build_identity
    max_request_body_bytes eqs
run_serve env = do
  fail_if env.config_failed config_error
  c ← wrapped load_error (load env.inputs env.env_lenient)
  fail_if (not env.logger_ok) logger_error
  node ← node_of env c
  choice ← or_fail (build_backend c) unknown_backend
  fail_if (not (env.construct choice)) backend_error
  engine ← wrapped engine_error (build_acl_engine c.acl)
  extractor ← wrapped extractor_error (build_ip_extractor env.inputs.parsers c)
  body_limit ← or_fail (max_request_body_bytes env.inputs.parsers c) body_limit_error
  return (record {
    config = c;
    node = node;
    backend = choice;
    instrumented = c.metrics.enabled;
    tracked = c.stats.enabled && env.stats_opened c.stats.db_path;
    engine = engine;
    extractor = extractor;
    identity = build_identity c (client_of env node);
    body_limit = body_limit;
    verbose_denials = verbose_denials_of c.acl;
    tls_enabled = eqs c.listen_mode (codes "tailscale");
    ui_enabled = c.ui.enabled && env.ui_registered;
  })

-- What Server.Run waits for first: the end of the context, with the result of the shutdown, or that of
-- http.Serve, which always is an error.
pub data ServerEvent : Type 0 where
  context_ended : Bool → ServerEvent
  serving_failed : ServerEvent

-- Server.Run; whether it returns without error
unfoldable pub run_server : Bool → ServerEvent → Bool
run_server listening (context_ended shut_down) = if not listening then false else shut_down
run_server listening serving_failed = false

pub data Ended : Type 0 where
  ended_well run_failed login_needed : Ended

-- the end of runServe; `login_cause` says whether the watcher has cancelled the context
unfoldable pub end_of_serve : Bool → Bool → Ended
end_of_serve run_ok login_cause =
    if not run_ok then run_failed else if login_cause then login_needed else ended_well
