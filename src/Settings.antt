-- ===== src/Settings.antt =====
-- internal/config/config.go: the configuration as a record per section. An int is the bit pattern of
-- its int64.
use ts_restic_server.Common.{ℕ, Bool, Option, List}
use ts_restic_server.Common.Text.{Bytes}

-- StatsConfig
pub record StatsConfig : Type 0 where
  pub enabled : Bool
  pub db_path : Bytes

-- MetricsConfig
pub record MetricsConfig : Type 0 where
  pub enabled : Bool
  pub password : Bytes
  pub per_host_enabled : Bool
  pub acl_enabled : Bool

-- UIAuth
pub record UiAuth : Type 0 where
  pub username : Bytes
  pub password : Bytes

-- UIConfig
pub record UiConfig : Type 0 where
  pub enabled : Bool
  pub auth : UiAuth

-- ACLRule
pub record AclRule : Type 0 where
  pub paths : List Bytes
  pub identities : List Bytes
  pub permission : Bytes

-- ACLConfig
pub record AclConfig : Type 0 where
  pub default_role : Bytes
  pub trusted_proxies : List Bytes
  pub dns_server : Bytes
  pub rdns_cache_ttl : ℕ
  pub identity_cache_size : ℕ
  pub verbose_denials : Bool
  pub rules : List AclRule

pub record Tailscale : Type 0 where
  pub hostname : Bytes
  pub state_dir : Bytes
  pub auth_key : Bytes
  pub interactive_login : Bool

-- Rclone
pub record RcloneConfig : Type 0 where
  pub endpoint : Bytes
  pub username : Bytes
  pub password : Bytes

-- WebDAV
pub record WebdavConfig : Type 0 where
  pub endpoint : Bytes
  pub username : Bytes
  pub password : Bytes
  pub prefix : Bytes

-- S3
pub record S3Config : Type 0 where
  pub bucket : Bytes
  pub prefix : Bytes
  pub region : Bytes
  pub endpoint : Bytes
  pub access_key : Bytes
  pub secret_key : Bytes

-- SMB
pub record Smb : Type 0 where
  pub server : Bytes
  pub share : Bytes
  pub username : Bytes
  pub password : Bytes
  pub domain : Bytes
  pub port : ℕ
  pub base_path : Bytes

-- NFS
pub record Nfs : Type 0 where
  pub server : Bytes
  pub export : Bytes
  pub base_path : Bytes
  pub uid : ℕ
  pub gid : ℕ

pub record Storage : Type 0 where
  pub backend : Bytes
  pub path : Bytes
  pub max_memory_bytes : ℕ
  pub s3 : S3Config
  pub webdav : WebdavConfig
  pub rclone : RcloneConfig
  pub smb : Smb
  pub nfs : Nfs

pub record Config : Type 0 where
  pub listen : Bytes
  pub listen_mode : Bytes
  pub append_only : Bool
  pub log_level : Bytes
  pub shutdown_timeout : ℕ
  pub tailscale : Tailscale
  pub storage : Storage
  pub acl_file : Bytes
  pub acl : Option AclConfig
  pub max_request_body_size : Bytes
  pub metrics : MetricsConfig
  pub stats : StatsConfig
  pub ui : UiConfig
