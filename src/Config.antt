-- ===== src/Config.antt =====
-- internal/config/config.go: the checks of the loaded configuration, and discover.go. `bytes.Parse` of labstack/gommon is a
-- parameter, and so are net.ParseCIDR and net.SplitHostPort, of which only success is read.
pub mod Validation
pub mod Discover
pub mod EnvVars
pub mod Resolve
pub mod Load
pub mod Loaded
use ts_restic_server.Common.{
  ℕ, suc, ◌+◌, Bool, true, false, ◌&&◌, ◌||◌, not, Option, none, some, List, [], ◌∷◌, ◌⊎◌, inl, inr,
  if◌then◌else◌, ltb, leb,
}
use ts_restic_server.Common.Int64.{lt64}
use ts_restic_server.Settings.{AclRule, AclConfig, Storage, Config}
use ts_restic_server.Common.Text.{Bytes, codes, eqs, has_prefix, contains}

-- What the code calls of other packages.
pub record Parsers : Type 0 where
  pub parse_size : Bytes → Option ℕ
  pub valid_cidr : Bytes → Bool
  pub valid_host_port : Bytes → Bool

-- The setting that an error is about.
pub data ConfigError : Type 0 where
  listen_mode shutdown_timeout backend_name storage_path s3_bucket s3_endpoint : ConfigError
  max_memory_bytes webdav_endpoint webdav_scheme rclone_endpoint rclone_scheme : ConfigError
  smb_server smb_share smb_port nfs_server nfs_export max_request_body_size : ConfigError
  default_role dns_server init_listen_mode tailscale_hostname tailscale_state_dir : ConfigError
  trusted_proxy rule_paths rule_identities rule_permission : ℕ → ConfigError

-- A chain of checks; `none` is the nil error.
infixr 20 ◌then_check◌
abbrev pub ◌then_check◌ : Option ConfigError → Option ConfigError → Option ConfigError
none then_check rest = rest
(some e) then_check rest = some e

abbrev pub fail_if : Bool → ConfigError → Option ConfigError
fail_if true e = some e
fail_if false e = none

abbrev pub is_nil : Bytes → Bool
is_nil [] = true
is_nil (_ ∷ _) = false

-- validPermissions[s]
unfoldable pub valid_permission : Bytes → Bool
valid_permission s =
    eqs s (codes "deny")
    || eqs s (codes "read-only")
    || eqs s (codes "append-only")
    || eqs s (codes "full-access")

abbrev pub no_items : List Bytes → Bool
no_items [] = true
no_items (_ ∷ _) = false

-- the loops of ACLConfig.Validate, from index `i` on
unfoldable pub check_proxies : Parsers → ℕ → List Bytes → Option ConfigError
check_proxies p i [] = none
check_proxies p i (cidr ∷ rest) =
    fail_if (not (p.valid_cidr cidr)) (trusted_proxy i) then_check check_proxies p (suc i) rest

unfoldable pub check_rules : ℕ → List AclRule → Option ConfigError
check_rules i [] = none
check_rules i (r ∷ rs) =
    fail_if (no_items r.paths) (rule_paths i)
    then_check fail_if (no_items r.identities) (rule_identities i)
    then_check fail_if (not (valid_permission r.permission)) (rule_permission i)
    then_check check_rules (suc i) rs

-- ACLConfig.Validate
unfoldable pub validate_acl : Parsers → AclConfig → Option ConfigError
validate_acl p a =
    fail_if (not (valid_permission a.default_role)) default_role
    then_check check_proxies p 0 a.trusted_proxies
    then_check fail_if (not (is_nil a.dns_server) && not (p.valid_host_port a.dns_server))
        dns_server
    then_check check_rules 0 a.rules

-- MaxRequestBodyBytes; `none` is its error
unfoldable pub max_request_body_bytes : Parsers → Config → Option ℕ
max_request_body_bytes p c =
    if is_nil c.max_request_body_size then some 0 else elim (p.parse_size c.max_request_body_size) [
      | none ↦ none
      | some n ↦ if not (lt64 0 n) then none else some n
    ]

abbrev pub is_error : Option ℕ → Bool
is_error none = true
is_error (some _) = false

abbrev pub no_scheme : Bytes → Bool
no_scheme e = not (has_prefix e (codes "http://")) && not (has_prefix e (codes "https://"))

unfoldable pub known_backend : Bytes → Bool
known_backend b =
    eqs b (codes "filesystem")
    || eqs b (codes "s3")
    || eqs b (codes "memory")
    || eqs b (codes "webdav")
    || eqs b (codes "rclone")
    || eqs b (codes "smb")
    || eqs b (codes "nfs")

abbrev pub check_acl : Parsers → Option AclConfig → Option ConfigError
check_acl p none = none
check_acl p (some a) = validate_acl p a

-- the checks of the chosen backend
unfoldable pub check_storage : Storage → Option ConfigError
check_storage s =
    fail_if (eqs s.backend (codes "filesystem") && is_nil s.path) storage_path
    then_check fail_if (eqs s.backend (codes "s3") && is_nil s.s3.bucket) s3_bucket
    then_check fail_if
        (eqs s.backend (codes "s3") && not (is_nil s.s3.endpoint) && no_scheme s.s3.endpoint)
        s3_endpoint
    then_check fail_if (eqs s.backend (codes "memory") && not (lt64 0 s.max_memory_bytes))
        max_memory_bytes
    then_check fail_if (eqs s.backend (codes "webdav") && is_nil s.webdav.endpoint) webdav_endpoint
    then_check fail_if
        (eqs s.backend (codes "webdav")
          && not (is_nil s.webdav.endpoint)
          && no_scheme s.webdav.endpoint)
        webdav_scheme
    then_check fail_if (eqs s.backend (codes "rclone") && is_nil s.rclone.endpoint) rclone_endpoint
    then_check fail_if
        (eqs s.backend (codes "rclone")
          && not (is_nil s.rclone.endpoint)
          && no_scheme s.rclone.endpoint)
        rclone_scheme
    then_check fail_if (eqs s.backend (codes "smb") && is_nil s.smb.server) smb_server
    then_check fail_if (eqs s.backend (codes "smb") && is_nil s.smb.share) smb_share
    then_check fail_if
        (eqs s.backend (codes "smb") && (not (lt64 0 s.smb.port) || lt64 65535 s.smb.port)) smb_port
    then_check fail_if (eqs s.backend (codes "nfs") && is_nil s.nfs.server) nfs_server
    then_check fail_if (eqs s.backend (codes "nfs") && is_nil s.nfs.export) nfs_export

-- Config.Validate
unfoldable pub validate : Parsers → Config → Option ConfigError
validate p c =
    fail_if (not (eqs c.listen_mode (codes "plain") || eqs c.listen_mode (codes "tailscale")))
      listen_mode
    then_check fail_if (not (lt64 0 c.shutdown_timeout)) shutdown_timeout
    then_check fail_if (not (known_backend c.storage.backend)) backend_name
    then_check check_storage c.storage
    then_check fail_if (is_error (max_request_body_bytes p c)) max_request_body_size
    then_check check_acl p c.acl

-- ValidateForInit
unfoldable pub validate_for_init : Config → Option ConfigError
validate_for_init c =
    fail_if (not (eqs c.listen_mode (codes "tailscale"))) init_listen_mode
    then_check fail_if (is_nil c.tailscale.hostname || contains c.tailscale.hostname (codes "${"))
        tailscale_hostname
    then_check fail_if (is_nil c.tailscale.state_dir || contains c.tailscale.state_dir (codes "${"))
        tailscale_state_dir
