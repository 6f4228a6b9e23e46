-- ===== src/Rclone.antt =====
-- internal/storage/rclone/rclone.go: the backend that speaks the REST protocol of restic to another
-- server. What it calls of net/http, and the decoder of encoding/json, are parameters.
pub mod Numbers
pub mod Ranges
pub mod Urls
use ts_restic_server.Common.{
  ℕ, zero, suc, ◌+◌, ◌/◌, ◌%◌, Bool, true, false, ◌&&◌, ◌||◌, not, ltb, leb, ◌==◌, Option, none,
  some, List, [], ◌∷◌, ◌++◌, if◌then◌else◌,
}
use ts_restic_server.Common.Int64.{add64, sub64, lt64}
use ts_restic_server.Common.Text.{Bytes, codes, eqs}
use ts_restic_server.Storage.{
  Error, Result, ok, err, not_found, repo_not_found, repo_exists, other, Reader, Blob,
}
use ts_restic_server.Http.{method_get, method_head, method_delete, method_post}
use ts_restic_server.Files.{Answer, done, failed}
use ts_restic_server.Files.Program.{Program, return, fail, attempt, call, look, ◌>>=◌, ◌>>◌}

pub record Rclone : Type 0 where
  pub endpoint : Bytes
  pub username : Bytes
  pub password : Bytes

-- http.Request, as far as the backend sets it
pub record Outgoing : Type 0 where
  pub method : Bytes
  pub url : Bytes
  pub body : Option Reader
  pub basic_auth : Option (Bytes × Bytes)
  pub range_header : Bytes
  pub accept_header : Bytes

-- http.Response
pub record Incoming : Type 0 where
  pub status_code : ℕ
  pub content_length : ℕ
  pub body : Bytes

-- Whether http.NewRequest accepts a URL, http.Client.Do, and the decoder of a list of blobs; what
-- another server keeps is the state.
pub record Server (S : Type 0) : Type 0 where
  pub valid_url : Bytes → Bool
  pub send : Outgoing → S → Answer Incoming × S
  pub decode_blobs : Bytes → Option (List Blob)

-- strings.TrimSuffix(s, "/")
abbrev pub trim_slash : Bytes → Bytes
trim_slash [] = []
trim_slash (c ∷ []) = if c == b'/' then [] else c ∷ []
trim_slash (c ∷ d ∷ s) = c ∷ trim_slash (d ∷ s)

-- New
unfoldable pub new : Bytes → Bytes → Bytes → Rclone
new endpoint username password = record {
  endpoint = trim_slash endpoint;
  username = username;
  password = password;
}

-- the decimal digits of a number, with a bound on how many there are
unfoldable pub digits_within : ℕ → ℕ → Bytes
digits_within zero n = []
digits_within (suc k) n =
    let front = digits_within k (n / 10) in
    if ltb n 10 then (48 + n) ∷ [] else front ++ (48 + n % 10) ∷ []

-- the verb %d of package fmt, for an int64, which has at most 19 digits
abbrev pub format_int : ℕ → Bytes
format_int n = if lt64 n 0 then b'-' ∷ digits_within 20 (sub64 0 n) else digits_within 20 n

-- the header of GetBlob, empty if it sets none
unfoldable pub range_value : ℕ → ℕ → Bytes
range_value offset count =
    if lt64 0 offset || lt64 0 count
    then (if lt64 0 count
        then codes "bytes=" ++ format_int offset ++ b'-' ∷ format_int (sub64 (add64 offset count) 1)
        else codes "bytes=" ++ format_int offset ++ b'-' ∷ [])
    else []

-- repoURL, for the repository prefix of the context
unfoldable pub repo_url : Rclone → Bytes → Bytes
repo_url b repo =
    if eqs repo [] then b.endpoint ++ codes "/" else b.endpoint ++ codes "/" ++ repo ++ codes "/"

-- blobURL
unfoldable pub blob_url : Rclone → Bytes → Bytes → Bytes → Bytes
blob_url b repo t name = repo_url b repo ++ t ++ codes "/" ++ name

-- http.NewRequestWithContext
abbrev pub new_request : Bytes → Bytes → Option Reader → Outgoing
new_request method url body = record {
  method = method;
  url = url;
  body = body;
  basic_auth = none;
  range_header = [];
  accept_header = [];
}

-- setAuth
abbrev pub set_auth : Rclone → Outgoing → Outgoing
set_auth b r =
    if not (eqs b.username []) || not (eqs b.password [])
    then record r { basic_auth = some (b.username, b.password) }
    else r

-- resp.StatusCode >= 300
abbrev pub is_failure : Incoming → Bool
is_failure resp = leb 300 resp.status_code

module _ {S : Type 0} (server : Server S) (b : Rclone) where
  -- the request made and sent
  unfoldable pub exchange : Outgoing → Program S Incoming
  exchange r = if server.valid_url r.url then call (server.send (set_auth b r)) else fail other

  -- a status that has an error of its own, and the other failures
  abbrev pub checked : ℕ → Error → Incoming → Program S Incoming
  checked status e resp =
      if resp.status_code == status
      then fail e
      else if is_failure resp
      then fail other
      else return resp

  abbrev pub ignored : Incoming → Program S (Unit {0})
  ignored resp = return tt

  -- CreateRepo
  unfoldable pub create_repo : Bytes → Program S (Unit {0})
  create_repo repo =
      exchange (new_request method_post (repo_url b repo ++ codes "?create=true") none)
      >>= checked 409 repo_exists
      >>= ignored

  -- DeleteRepo
  unfoldable pub delete_repo : Bytes → Program S (Unit {0})
  delete_repo repo =
      exchange (new_request method_delete (repo_url b repo) none)
      >>= checked 404 repo_not_found
      >>= ignored

  abbrev pub config_url : Bytes → Bytes
  config_url repo = repo_url b repo ++ codes "config"

  abbrev pub length_of : Incoming → Program S ℕ
  length_of resp = return resp.content_length

  abbrev pub body_of : Incoming → Program S Bytes
  body_of resp = return resp.body

  -- StatConfig
  unfoldable pub stat_config : Bytes → Program S ℕ
  stat_config repo =
      exchange (new_request method_head (config_url repo) none)
      >>= checked 404 not_found
      >>= length_of

  -- GetConfig
  unfoldable pub get_config : Bytes → Program S Bytes
  get_config repo =
      exchange (new_request method_get (config_url repo) none) >>= checked 404 not_found >>= body_of

  abbrev pub unless_failure : Incoming → Program S (Unit {0})
  unless_failure resp = if is_failure resp then fail other else return tt

  -- SaveConfig
  unfoldable pub save_config : Bytes → Reader → Program S (Unit {0})
  save_config repo body =
      exchange (new_request method_post (config_url repo) (some body)) >>= unless_failure

  -- StatBlob
  unfoldable pub stat_blob : Bytes → Bytes → Bytes → Program S ℕ
  stat_blob repo t name =
      exchange (new_request method_head (blob_url b repo t name) none)
      >>= checked 404 not_found
      >>= length_of

  -- GetBlob; the status 206 is below 300
  unfoldable pub get_blob : Bytes → Bytes → Bytes → ℕ → ℕ → Program S Bytes
  get_blob repo t name offset count =
      let r = new_request method_get (blob_url b repo t name) none in
      exchange (record r { range_header = range_value offset count })
      >>= checked 404 not_found
      >>= body_of

  -- SaveBlob
  unfoldable pub save_blob : Bytes → Bytes → Bytes → Reader → Program S (Unit {0})
  save_blob repo t name body =
      exchange (new_request method_post (blob_url b repo t name) (some body)) >>= unless_failure

  -- DeleteBlob
  unfoldable pub delete_blob : Bytes → Bytes → Bytes → Program S (Unit {0})
  delete_blob repo t name =
      exchange (new_request method_delete (blob_url b repo t name) none)
      >>= checked 404 not_found
      >>= ignored

  abbrev pub decoded : Option (List Blob) → Program S (List Blob)
  decoded none = fail other
  decoded (some blobs) = return blobs

  abbrev pub listed : Incoming → Program S (List Blob)
  listed resp =
      if resp.status_code == 404
      then return []
      else if is_failure resp
      then fail other
      else decoded (server.decode_blobs resp.body)

  -- ListBlobs
  unfoldable pub list_blobs : Bytes → Bytes → Program S (List Blob)
  list_blobs repo t =
      let r = new_request method_get (repo_url b repo ++ t ++ codes "/") none in
      exchange (record r { accept_header = codes "application/vnd.x.restic.rest.v2" }) >>= listed
