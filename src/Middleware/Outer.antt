-- ===== src/Middleware/Outer.antt =====
-- internal/middleware/recover.go: a panic of a handler becomes an error reply. Its log lines and
-- metrics are left out.
use ts_restic_server.Common.{[]}
use ts_restic_server.Common.Text.{codes}
use ts_restic_server.Http.{Request, Reply, reply, panicked, Handler}
use ts_restic_server.ApiError

abbrev pub recovered : Request → Reply → Reply
recovered c (reply r) = reply r
recovered c panicked = ApiError.new 500 (codes "internal server error") [] c.request_id

-- Recover around the handler `next`, for a handler that panics before it has written to its response.
unfoldable pub recover : {S : Type 0} → Handler S → Handler S
recover next c s = let (answer, s') = next c s in (recovered c answer, s')
