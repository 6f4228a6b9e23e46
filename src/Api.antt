-- ===== src/Api.antt =====
-- internal/api: the restic REST handlers over a backend. Log lines are left out.
pub mod Range
pub mod Blob
pub mod Config
pub mod Repo
pub mod Listing
pub mod Server
pub mod Reading
pub mod AppendOnly
pub mod Wrapped
use ts_restic_server.Common.{ℕ, Bool, true, false, ◌||◌, not, ◌++◌, List, [], ◌∷◌, if◌then◌else◌}
use ts_restic_server.Common.Text.{Bytes, codes, eqs, to_lower}
use ts_restic_server.Storage.{
  Error, not_found, quota_exceeded, repo_not_found, repo_exists, Backend, valid_blob_type,
  valid_blob_name,
}
use ts_restic_server.Http.{Request, HeaderValue, Body, no_content, Response, Reply, reply, Handler}
use ts_restic_server.ApiError

-- handler.go; the handler's backend and its append-only flag
pub record ApiHandler (S : Type 0) : Type 0 where
  pub backend : Backend S
  pub append_only : Bool

-- errors.go: apiError
unfoldable pub api_error : Request → ℕ → Bytes → Bytes → Reply
unfolding ApiError.new
api_error c status error message = ApiError.new status error message c.request_id

-- c.NoContent
abbrev pub empty_reply : ℕ → Reply
empty_reply status = reply (record { status = status; headers = []; body = no_content })

abbrev pub internal_error : Request → Reply
internal_error c = api_error c 500 (codes "internal server error") []

-- errors.Is(err, …)
abbrev pub is_not_found : Error → Bool
is_not_found not_found = true
is_not_found _ = false

abbrev pub is_quota_exceeded : Error → Bool
is_quota_exceeded quota_exceeded = true
is_quota_exceeded _ = false

abbrev pub is_repo_not_found : Error → Bool
is_repo_not_found repo_not_found = true
is_repo_not_found _ = false

abbrev pub is_repo_exists : Error → Bool
is_repo_exists repo_exists = true
is_repo_exists _ = false

-- the error replies that several handlers share
abbrev pub not_found_or_internal : Request → Error → Reply
not_found_or_internal c e =
    if is_not_found e then api_error c 404 (codes "not found") [] else internal_error c

abbrev pub head_error : Error → Reply
head_error e = if is_not_found e then empty_reply 404 else empty_reply 500

abbrev pub save_error : Request → Error → Reply
save_error c e =
    if is_quota_exceeded e
    then api_error c 507 (codes "quota exceeded") (codes "storage quota has been exceeded")
    else internal_error c

-- blobParams
abbrev pub blob_type : Request → Bytes
blob_type c = to_lower c.type_param

abbrev pub blob_name : Request → Bytes
blob_name c = c.name_param

-- The message is quoted as %q quotes printable text.
abbrev pub invalid_type : Request → Reply
invalid_type c =
    api_error c 400 (codes "invalid blob type")
      (codes "unknown type \"" ++ (blob_type c ++ codes "\""))

abbrev pub invalid_name : Request → Reply
invalid_name c =
    api_error c 400 (codes "invalid blob name") (codes "blob name must be a hex string")

-- The two checks with which every blob handler begins.
unfoldable pub checked_blob : {S : Type 0} → Handler S → Handler S
checked_blob next c s =
    if not (valid_blob_type (blob_type c))
    then (invalid_type c, s)
    else if not (valid_blob_name (blob_name c))
    then (invalid_name c, s)
    else next c s
