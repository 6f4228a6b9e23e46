-- ===== src/Config/Load.antt =====
-- internal/config/config.go: SetDefaults, Load and loadACLFile. What viper has unmarshalled is a
-- parameter, and so are the files with their texts and gopkg.in/yaml.v3.
use ts_restic_server.Common.{
  Bool, true, false, ◌&&◌, Option, none, some, List, [], ◌∷◌, ◌⊎◌, inr, ◌==◌, if◌then◌else◌,
}
use ts_restic_server.Common.Text.{Bytes, codes}
use ts_restic_server.Common.Fallible.{◌>>=◌, ◌>>◌, return, fail_if, or_fail, check, wrapped}
use ts_restic_server.Settings.{AclRule, AclConfig, Config}
use ts_restic_server.Config.{Parsers, ConfigError, is_nil, no_items, validate_acl, validate}
use ts_restic_server.Config.EnvVars.{Lookup}
use ts_restic_server.Config.Resolve.{resolve_acl, resolve_config}

-- SetDefaults: what viper unmarshals where nothing is configured
abbrev pub default_acl : AclConfig
default_acl = record {
  default_role = [];
  trusted_proxies = [];
  dns_server = [];
  rdns_cache_ttl = 0;
  identity_cache_size = 1000;
  verbose_denials = true;
  rules = [];
}

abbrev pub default_config : Config
default_config = record {
  listen = codes ":8880";
  listen_mode = codes "plain";
  append_only = false;
  log_level = codes "info";
  shutdown_timeout = 30;
  tailscale = record {
    hostname = codes "restic-server";
    state_dir = codes "./ts-state";
    auth_key = [];
    interactive_login = false;
  };
  storage = record {
    backend = codes "filesystem";
    path = codes "./restic_data";
    max_memory_bytes = 104857600;
    s3 = record {
      bucket = [];
      prefix = [];
      region = [];
      endpoint = [];
      access_key = [];
      secret_key = [];
    };
    webdav = record { endpoint = []; username = []; password = []; prefix = [] };
    rclone = record { endpoint = []; username = []; password = [] };
    smb = record {
      server = [];
      share = [];
      username = [];
      password = [];
      domain = codes "WORKGROUP";
      port = 445;
      base_path = [];
    };
    nfs = record { server = []; export = []; base_path = []; uid = 65534; gid = 65534 };
  };
  acl_file = [];
  acl = some default_acl;
  max_request_body_size = codes "256MB";
  metrics = record { enabled = true; password = []; per_host_enabled = true; acl_enabled = false };
  stats = record { enabled = false; db_path = codes "./stats.db" };
  ui = record { enabled = false; auth = record { username = []; password = [] } };
}

pub data LoadError : Type 0 where
  unmarshal_failed both_acls acl_file_unreadable acl_file_syntax : LoadError
  variable_unset acl_file_variable_unset : Bytes → LoadError
  acl_file_invalid invalid : ConfigError → LoadError

-- What Load reads, and what it calls of other packages.
pub record Inputs : Type 0 where
  pub unmarshalled : Option Config
  pub read_file : Bytes → Option Bytes
  pub parse_yaml : Bytes → Option AclConfig
  pub lookup : Lookup
  pub parsers : Parsers

abbrev pub no_rules : List AclRule → Bool
no_rules [] = true
no_rules (_ ∷ _) = false

-- none of the fields without a default is set
unfoldable pub is_unset : AclConfig → Bool
is_unset a =
    is_nil a.default_role
    && no_rules a.rules
    && no_items a.trusted_proxies
    && is_nil a.dns_server
    && a.rdns_cache_ttl == 0

abbrev pub normalize_acl : Option AclConfig → Option AclConfig
normalize_acl none = none
normalize_acl (some a) = if is_unset a then none else some a

abbrev pub has_acl : Option AclConfig → Bool
has_acl none = false
has_acl (some a) = true

module _ (inputs : Inputs) (lenient : Bool) where
  -- loadACLFile
  unfoldable pub load_acl_file : Bytes → LoadError ⊎ AclConfig
  unfolding resolve_acl validate_acl
  load_acl_file path = do
    data_read ← or_fail (inputs.read_file path) acl_file_unreadable
    acl_cfg ← or_fail (inputs.parse_yaml data_read) acl_file_syntax
    resolved ← wrapped acl_file_variable_unset (resolve_acl inputs.lookup lenient acl_cfg)
    check (validate_acl inputs.parsers resolved) acl_file_invalid
    return resolved

  -- the ACL of the configuration: its own, or that of its file
  unfoldable pub chosen_acl : Config → LoadError ⊎ Option AclConfig
  unfolding load_acl_file
  chosen_acl c =
      if is_nil c.acl_file
      then inr c.acl
      else (do fail_if (has_acl c.acl) both_acls; a ← load_acl_file c.acl_file; return (some a))

  -- Load
  unfoldable pub load : LoadError ⊎ Config
  unfolding resolve_config chosen_acl validate is_unset
  load = do
    c ← or_fail inputs.unmarshalled unmarshal_failed
    resolved ←
        wrapped variable_unset
          (resolve_config inputs.lookup lenient (record c { acl = normalize_acl c.acl }))
    a ← chosen_acl resolved
    let cfg = record resolved { acl = a }
    check (validate inputs.parsers cfg) invalid
    return cfg
