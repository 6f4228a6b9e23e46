-- ===== src/Commands.antt =====
-- cmd: what serve builds from the configuration. Backends and middlewares are the choice of a
-- constructor with its arguments; Tailscale's local client is a parameter.
pub mod Builds
pub mod Node
pub mod Serve
pub mod Init
pub mod Registered
pub mod Started
pub mod Served
use ts_restic_server.Common.{
  ℕ, Bool, true, false, ◌&&◌, ◌||◌, not, Option, none, some, List, [], ◌∷◌, ◌⊎◌, inl, inr,
  if◌then◌else◌,
}
use ts_restic_server.Common.Int64.{lt64}
use ts_restic_server.Common.Text.{Bytes, codes, eqs, cut_suffix}
use ts_restic_server.Common.Fallible.{◌>>=◌, return, or_fail, wrapped, each}
use ts_restic_server.Settings.{AclRule, AclConfig, Config}
use ts_restic_server.Config.{Parsers, is_nil, no_items}
use ts_restic_server.Acl
use ts_restic_server.Acl.{Rule, Engine, NewError, parse_permission}
use ts_restic_server.Http.{WhoIsResult}

pub data EngineError : Type 0 where
  unknown_permission : Bytes → EngineError
  rejected : NewError → EngineError

-- a rule of the configuration with its permission parsed
unfoldable pub build_rule : AclRule → EngineError ⊎ Rule
unfolding parse_permission
build_rule r = do
  perm ← or_fail (parse_permission r.permission) (unknown_permission r.permission)
  return (record { paths = r.paths; identities = r.identities; permission = perm })

-- buildACLEngine; a nil engine is `none`
unfoldable pub build_acl_engine : Option AclConfig → EngineError ⊎ Option Engine
unfolding build_rule Acl.new
build_acl_engine none = inr none
build_acl_engine (some cfg) = do
  default_perm ← or_fail (parse_permission cfg.default_role) (unknown_permission cfg.default_role)
  rules ← each build_rule cfg.rules
  engine ← wrapped rejected (Acl.new default_perm rules)
  return (some engine)

-- echo.ExtractIPDirect, or echo.ExtractIPFromXFFHeader with the trusted ranges and no other
pub data IpExtractor : Type 0 where
  direct : IpExtractor
  from_forwarded : List Bytes → IpExtractor

abbrev pub trusted_of : Option AclConfig → List Bytes
trusted_of none = []
trusted_of (some a) = a.trusted_proxies

abbrev pub parse_cidr : Parsers → Bytes → Bytes ⊎ Bytes
parse_cidr p cidr = if p.valid_cidr cidr then inr cidr else inl cidr

-- buildIPExtractor; its error is the range that cannot be parsed
unfoldable pub build_ip_extractor : Parsers → Config → Bytes ⊎ IpExtractor
unfolding eqs
build_ip_extractor p c =
    if eqs c.listen_mode (codes "tailscale") || no_items (trusted_of c.acl)
    then inr direct
    else (do ranges ← each (parse_cidr p) (trusted_of c.acl); return (from_forwarded ranges))

-- The middleware with its arguments: the DNS server, the seconds that an entry lives, the flag for
-- Tailscale, and the size of the cache.
pub data IdentityChoice : Type 0 where
  plain_identity : IdentityChoice
  rdns_identity : Bytes → ℕ → Bool → ℕ → IdentityChoice
  who_is_identity : ℕ → ℕ → IdentityChoice

abbrev pub positive_or : ℕ → ℕ → ℕ
positive_or default n = if lt64 0 n then n else default

-- buildIdentityMiddleware; `local_client` says whether there is a node, and whether its LocalClient
-- succeeds
unfoldable pub build_identity : Config → Option Bool → IdentityChoice
unfolding eqs lt64
build_identity c local_client = elim c.acl [
  | none ↦ plain_identity
  | some a ↦
      let ttl = positive_or 600 a.rdns_cache_ttl in
      let size = positive_or 1000 a.identity_cache_size in
      let by_name = rdns_identity a.dns_server ttl false size in
      if eqs c.listen_mode (codes "tailscale")
      then elim local_client [
        | none ↦ by_name
        | some true ↦ who_is_identity ttl size
        | some false ↦ rdns_identity (codes "100.100.100.100:53") ttl true size
      ]
      else by_name
]

-- What lc.WhoIs returns, of which the node and the user may be nil.
pub record WhoIsNode : Type 0 where
  pub name : Bytes
  pub computed_name : Bytes
  pub tags : List Bytes

pub record WhoIsResponse : Type 0 where
  pub node : Option WhoIsNode
  pub user_login_name : Option Bytes

-- strings.TrimSuffix
abbrev pub trim_suffix : Bytes → Bytes → Bytes
trim_suffix s suffix = elim (cut_suffix s suffix) [ none ↦ s | some before ↦ before ]

-- buildWhoIsFunc; an error of lc.WhoIs is `none`
unfoldable pub build_who_is : (Bytes → Option WhoIsResponse) → Bytes → Option WhoIsResult
unfolding cut_suffix
build_who_is who_is remote_addr = elim (who_is remote_addr) [
  | none ↦ none
  | some r ↦ some (record {
    fqdn = elim r.node [ none ↦ [] | some n ↦ trim_suffix n.name (codes ".") ];
    short_name = elim r.node [ none ↦ [] | some n ↦ n.computed_name ];
    tags = elim r.node [ none ↦ [] | some n ↦ n.tags ];
    login_name = elim r.user_login_name [ none ↦ [] | some login ↦ login ];
  })
]

-- The constructor of a backend with its arguments.
pub data BackendChoice : Type 0 where
  memory_backend : ℕ → BackendChoice
  filesystem_backend : Bytes → BackendChoice
  -- bucket, prefix, region, endpoint, access key, secret key
  s3_backend : Bytes → Bytes → Bytes → Bytes → Bytes → Bytes → BackendChoice
  -- endpoint, username, password, prefix
  webdav_backend : Bytes → Bytes → Bytes → Bytes → BackendChoice
  -- endpoint, username, password
  rclone_backend : Bytes → Bytes → Bytes → BackendChoice
  -- server, port, share, username, password, domain, base path
  smb_backend : Bytes → ℕ → Bytes → Bytes → Bytes → Bytes → Bytes → BackendChoice
  -- server, export, base path, uid, gid
  nfs_backend : Bytes → Bytes → Bytes → ℕ → ℕ → BackendChoice

-- buildBackend; `none` is the ValidationError of an unknown backend
unfoldable pub build_backend : Config → Option BackendChoice
unfolding eqs
build_backend c =
    let s = c.storage in
    if eqs s.backend (codes "memory")
    then some (memory_backend s.max_memory_bytes)
    else if eqs s.backend (codes "filesystem")
    then some (filesystem_backend s.path)
    else if eqs s.backend (codes "s3")
    then some (
        s3_backend s.s3.bucket s.s3.prefix s.s3.region s.s3.endpoint s.s3.access_key
          s.s3.secret_key)
    else if eqs s.backend (codes "webdav")
    then some (webdav_backend s.webdav.endpoint s.webdav.username s.webdav.password s.webdav.prefix)
    else if eqs s.backend (codes "rclone")
    then some (rclone_backend s.rclone.endpoint s.rclone.username s.rclone.password)
    else if eqs s.backend (codes "smb")
    then some (
        smb_backend s.smb.server s.smb.port s.smb.share s.smb.username s.smb.password s.smb.domain
          s.smb.base_path)
    else if eqs s.backend (codes "nfs")
    then some (nfs_backend s.nfs.server s.nfs.export s.nfs.base_path s.nfs.uid s.nfs.gid)
    else none
