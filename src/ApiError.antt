-- ===== src/ApiError.antt =====
-- internal/apierror/apierror.go: the JSON error envelope.
use ts_restic_server.Common.{ℕ, Bool, Option, none, some, List, [], ◌==◌, if◌then◌else◌}
use ts_restic_server.Common.Text.{Bytes, eqs}
use ts_restic_server.Http.{DataValue, error_body, no_content, Request, Reply, reply, method_head}

-- WithData; an absent message is the empty text, as `omitempty` has it.
unfoldable pub with_data : ℕ → Bytes → Bytes → Bytes → Option (List (Bytes × DataValue)) → Reply
with_data status error message request_id d = reply (record {
  status = status;
  headers = [];
  body = error_body (record {
    status = status;
    error = error;
    message = message;
    request_id = request_id;
    error_data = d;
  });
})

-- New
unfoldable pub new : ℕ → Bytes → Bytes → Bytes → Reply
unfolding with_data
new status error message request_id = with_data status error message request_id none

-- What echo and the errors package tell of an error: echo.StatusCode, 0 where it has none, the
-- message of the *echo.HTTPError in it, and err.Error().
pub record HandlerError : Type 0 where
  pub status_code : ℕ
  pub http_message : Option Bytes
  pub text : Bytes

unfoldable pub error_status : HandlerError → ℕ
error_status e = elim (e.http_message) [
  | some message ↦ e.status_code
  | none ↦ if e.status_code == 0 then 500 else e.status_code
]

unfoldable pub error_message : HandlerError → Bytes
error_message e = elim (e.http_message) [
  | some message ↦ message
  | none ↦ if e.status_code == 0 then e.text else []
]

-- CustomHTTPErrorHandler, with http.StatusText; it writes nothing once the response is committed.
unfoldable pub custom_http_error_handler :
    (ℕ → Bytes) → Bool → Request → HandlerError → Option Reply
unfolding error_status error_message new
custom_http_error_handler status_text committed c e =
    if committed
    then none
    else if eqs c.method method_head
    then some (reply (record { status = error_status e; headers = []; body = no_content }))
    else some (
        new (error_status e) (status_text (error_status e))
          (if eqs (error_message e) [] then status_text (error_status e) else error_message e)
          c.request_id)
