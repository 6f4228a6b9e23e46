-- ===== src/Http.antt =====
-- Requests and responses as the handlers and the middleware see them. echo's context is split into
-- the request with its context values and the response; what echo itself computes (the client's
-- address, the path parameters of the matched route) is a field of the request.
use ts_restic_server.Common.{ℕ, Bool, Option, List}
use ts_restic_server.Common.Text.{Bytes, codes}
use ts_restic_server.Storage.{Reader, Blob}

-- middleware.WhoIsResult
pub record WhoIsResult : Type 0 where
  pub fqdn : Bytes
  pub short_name : Bytes
  pub tags : List Bytes
  pub login_name : Bytes

pub record Request : Type 0 where
  pub method : Bytes
  pub path : Bytes
  pub body : Reader
  -- headers and query parameters, empty if absent
  pub range_header : Bytes
  pub accept_header : Bytes
  pub create_param : Bytes
  -- c.Param of the matched route
  pub type_param : Bytes
  pub name_param : Bytes
  -- c.RealIP() and RemoteAddr
  pub real_ip : Bytes
  pub remote_addr : Bytes
  -- the context values, empty if not set
  pub repo_prefix : Bytes
  pub identities : List Bytes
  pub who_is : Option WhoIsResult
  pub append_only : Bool
  pub request_id : Bytes

abbrev pub method_get : Bytes
method_get = codes "GET"

abbrev pub method_head : Bytes
method_head = codes "HEAD"

abbrev pub method_delete : Bytes
method_delete = codes "DELETE"

abbrev pub method_post : Bytes
method_post = codes "POST"

-- The value of a response header; numbers stand for their decimal text.
pub data HeaderValue : Type 0 where
  text : Bytes → HeaderValue
  number : ℕ → HeaderValue
  -- bytes FIRST-LAST/TOTAL and bytes */TOTAL
  byte_range : ℕ → ℕ → ℕ → HeaderValue
  unsatisfied_range : ℕ → HeaderValue

-- A field of the `data` object of an error.
pub data DataValue : Type 0 where
  string_value : Bytes → DataValue
  strings_value : List Bytes → DataValue

-- apierror.ErrorResponse
pub record ErrorResponse : Type 0 where
  pub status : ℕ
  pub error : Bytes
  pub message : Bytes
  pub request_id : Bytes
  pub error_data : Option (List (Bytes × DataValue))

pub data Body : Type 0 where
  no_content : Body
  error_body : ErrorResponse → Body
  stream : Bytes → Body
  names_json : List Bytes → Body
  blobs_json : List Blob → Body

pub record Response : Type 0 where
  pub status : ℕ
  pub headers : List (Bytes × HeaderValue)
  pub body : Body

-- A handler's response, or the panic that it raises.
pub data Reply : Type 0 where
  reply : Response → Reply
  panicked : Reply

-- echo.HandlerFunc over the state that requests share.
abbrev pub Handler : Type 0 → Type 0
Handler S = Request → S → Reply × S
