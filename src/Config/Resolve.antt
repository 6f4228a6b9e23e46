-- ===== src/Config/Resolve.antt =====
-- internal/config/envsubst.go: ResolveEnvVars over the fields of the configuration.
use ts_restic_server.Common.{Bool, Option, none, some, ◌⊎◌, inr}
use ts_restic_server.Common.Text.{Bytes}
use ts_restic_server.Common.Fallible.{◌>>=◌, return, each}
use ts_restic_server.Settings.{
  AclRule, AclConfig, Tailscale, S3Config, WebdavConfig, RcloneConfig, Smb, Nfs, Storage, Config,
}
use ts_restic_server.Config.EnvVars.{Lookup, substitute_string}

-- resolveValue: the strings of a record in the order of its fields, those of a pointer that is not
-- nil and of a slice; other values stay as they are
module _ (lookup : Lookup) (lenient : Bool) where
  abbrev pub resolve_string : Bytes → Bytes ⊎ Bytes
  resolve_string s = substitute_string lookup lenient s

  unfoldable pub resolve_rule : AclRule → Bytes ⊎ AclRule
  unfolding substitute_string
  resolve_rule r = do
    paths ← each resolve_string r.paths
    identities ← each resolve_string r.identities
    permission ← resolve_string r.permission
    return (record { paths = paths; identities = identities; permission = permission })

  unfoldable pub resolve_acl : AclConfig → Bytes ⊎ AclConfig
  unfolding resolve_rule
  resolve_acl a = do
    default_role ← resolve_string a.default_role
    trusted_proxies ← each resolve_string a.trusted_proxies
    dns_server ← resolve_string a.dns_server
    rules ← each resolve_rule a.rules
    return (record a {
      default_role = default_role;
      trusted_proxies = trusted_proxies;
      dns_server = dns_server;
      rules = rules;
    })

  unfoldable pub resolve_tailscale : Tailscale → Bytes ⊎ Tailscale
  unfolding substitute_string
  resolve_tailscale t = do
    hostname ← resolve_string t.hostname
    state_dir ← resolve_string t.state_dir
    auth_key ← resolve_string t.auth_key
    return (record t { hostname = hostname; state_dir = state_dir; auth_key = auth_key })

  unfoldable pub resolve_s3 : S3Config → Bytes ⊎ S3Config
  unfolding substitute_string
  resolve_s3 s = do
    bucket ← resolve_string s.bucket
    prefix ← resolve_string s.prefix
    region ← resolve_string s.region
    endpoint ← resolve_string s.endpoint
    access_key ← resolve_string s.access_key
    secret_key ← resolve_string s.secret_key
    return (record {
      bucket = bucket;
      prefix = prefix;
      region = region;
      endpoint = endpoint;
      access_key = access_key;
      secret_key = secret_key;
    })

  unfoldable pub resolve_webdav : WebdavConfig → Bytes ⊎ WebdavConfig
  unfolding substitute_string
  resolve_webdav w = do
    endpoint ← resolve_string w.endpoint
    username ← resolve_string w.username
    password ← resolve_string w.password
    prefix ← resolve_string w.prefix
    return
        (record { endpoint = endpoint; username = username; password = password; prefix = prefix })

  unfoldable pub resolve_rclone : RcloneConfig → Bytes ⊎ RcloneConfig
  unfolding substitute_string
  resolve_rclone r = do
    endpoint ← resolve_string r.endpoint
    username ← resolve_string r.username
    password ← resolve_string r.password
    return (record { endpoint = endpoint; username = username; password = password })

  unfoldable pub resolve_smb : Smb → Bytes ⊎ Smb
  unfolding substitute_string
  resolve_smb s = do
    server ← resolve_string s.server
    share ← resolve_string s.share
    username ← resolve_string s.username
    password ← resolve_string s.password
    domain ← resolve_string s.domain
    base_path ← resolve_string s.base_path
    return (record s {
      server = server;
      share = share;
      username = username;
      password = password;
      domain = domain;
      base_path = base_path;
    })

  unfoldable pub resolve_nfs : Nfs → Bytes ⊎ Nfs
  unfolding substitute_string
  resolve_nfs n = do
    server ← resolve_string n.server
    export ← resolve_string n.export
    base_path ← resolve_string n.base_path
    return (record n { server = server; export = export; base_path = base_path })

  unfoldable pub resolve_storage : Storage → Bytes ⊎ Storage
  unfolding resolve_s3 resolve_webdav resolve_rclone resolve_smb resolve_nfs
  resolve_storage s = do
    backend ← resolve_string s.backend
    path ← resolve_string s.path
    s3 ← resolve_s3 s.s3
    webdav ← resolve_webdav s.webdav
    rclone ← resolve_rclone s.rclone
    smb ← resolve_smb s.smb
    nfs ← resolve_nfs s.nfs
    return (record s {
      backend = backend;
      path = path;
      s3 = s3;
      webdav = webdav;
      rclone = rclone;
      smb = smb;
      nfs = nfs;
    })

  abbrev pub resolve_pointer : Option AclConfig → Bytes ⊎ Option AclConfig
  resolve_pointer none = inr none
  resolve_pointer (some a) = resolve_acl a >>= λ b. inr (some b)

  -- ResolveEnvVars of the whole configuration
  unfoldable pub resolve_config : Config → Bytes ⊎ Config
  unfolding resolve_acl resolve_tailscale resolve_storage
  resolve_config c = do
    listen ← resolve_string c.listen
    listen_mode ← resolve_string c.listen_mode
    log_level ← resolve_string c.log_level
    tailscale ← resolve_tailscale c.tailscale
    storage ← resolve_storage c.storage
    acl_file ← resolve_string c.acl_file
    acl ← resolve_pointer c.acl
    max_request_body_size ← resolve_string c.max_request_body_size
    metrics_password ← resolve_string c.metrics.password
    db_path ← resolve_string c.stats.db_path
    username ← resolve_string c.ui.auth.username
    password ← resolve_string c.ui.auth.password
    return (record c {
      listen = listen;
      listen_mode = listen_mode;
      log_level = log_level;
      tailscale = tailscale;
      storage = storage;
      acl_file = acl_file;
      acl = acl;
      max_request_body_size = max_request_body_size;
      metrics = record c.metrics { password = metrics_password };
      stats = record c.stats { db_path = db_path };
      ui = record c.ui { auth = record { username = username; password = password } };
    })
