-- ===== src/Middleware/Access.antt =====
-- internal/middleware/acl.go: requests are checked against the ACL engine. Its log lines and metrics
-- are left out.
use ts_restic_server.Common.{
  Bool, true, false, ◌&&◌, ◌||◌, not, Option, none, some, List, [], ◌∷◌, ◌++◌, if◌then◌else◌,
}
use ts_restic_server.Common.Text.{Bytes, codes, eqs, has_prefix}
use ts_restic_server.Acl.{
  OperationType, op_read, op_write, op_delete, Engine, allowed, slash, is_empty,
}
use ts_restic_server.Http.{
  WhoIsResult, Request, DataValue, string_value, strings_value, Reply, Handler, method_get,
  method_head, method_delete,
}
use ts_restic_server.ApiError
use ts_restic_server.Middleware.RepoPrefix.{system_prefix}

-- classifyOperation
unfoldable pub classify_operation : Bytes → Bytes → OperationType
classify_operation method path =
    if eqs method method_get || eqs method method_head
    then op_read
    else if eqs method method_delete
    then (if has_prefix path (codes "/locks/") || eqs path (codes "/locks")
        then op_write
        else op_delete)
    else op_write

-- opName
unfoldable pub op_name : OperationType → Bytes
op_name op_read = codes "read"
op_name op_write = codes "write"
op_name op_delete = codes "delete"

-- an entry of the `data` object, left out where the value is empty
abbrev pub entry_unless : Bool → Bytes → DataValue → List (Bytes × DataValue)
entry_unless absent key v = if absent then [] else (key, v) ∷ []

abbrev pub who_is_data : Option WhoIsResult → List (Bytes × DataValue)
who_is_data none = []
who_is_data (some w) =
    entry_unless (is_empty w.fqdn) (codes "hostname") (string_value w.fqdn)
    ++ (entry_unless (is_empty w.login_name) (codes "user") (string_value w.login_name)
        ++ entry_unless (is_empty w.tags) (codes "tags") (strings_value w.tags))

-- aclDeniedResponse
unfoldable pub acl_denied_response : Request → Bytes → OperationType → Bool → Reply
unfolding op_name
acl_denied_response c repo_path op verbose =
    if verbose
    then ApiError.with_data 403 (codes "access denied") [] c.request_id (
        some (
          (codes "path", string_value repo_path)
          ∷ (codes "operation", string_value (op_name op))
          ∷ (codes "ip", string_value c.real_ip)
          ∷ who_is_data c.who_is))
    else ApiError.with_data 403 (codes "access denied") [] c.request_id none

-- the identities that are checked: the client's address if none was resolved
abbrev pub checked_identities : Request → List Bytes
checked_identities c = if is_empty c.identities then c.real_ip ∷ [] else c.identities

-- the repository path that is checked
abbrev pub repo_path : Request → Bytes
repo_path c = slash ∷ c.repo_prefix

abbrev pub operation : Request → OperationType
operation c = classify_operation c.method c.path

abbrev pub permits : Engine → Request → OperationType → Bool
permits e c op = allowed e (checked_identities c) (repo_path c) op

abbrev pub is_write : OperationType → Bool
is_write op_write = true
is_write _ = false

-- a system route bypasses the check, unless it is the metrics endpoint and metrics are checked
abbrev pub bypasses : Bool → Bytes → Bool
bypasses metrics_acl_enabled path =
    has_prefix path system_prefix
    && not (metrics_acl_enabled && has_prefix path (codes "/-/metrics"))

-- ACL around the handler `next`; a nil engine is `none`
unfoldable pub acl : {S : Type 0} → Option Engine → Bool → Bool → Handler S → Handler S
acl none verbose_denials metrics_acl_enabled next c s = next c s
acl (some e) verbose_denials metrics_acl_enabled next c s =
    if bypasses metrics_acl_enabled c.path
    then next c s
    else if not (permits e c (operation c))
    then (acl_denied_response c (repo_path c) (operation c) verbose_denials, s)
    else if is_write (operation c) && not (permits e c op_delete)
    then next (record c { append_only = true }) s
    else next c s
