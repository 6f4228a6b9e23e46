-- ===== src/Middleware/Metrics.antt =====
-- internal/middleware/metrics.go: what is told to Prometheus of a request once its handler has
-- returned. The metrics are kept as the list of their updates, the oldest first; the time that a
-- histogram observes is left out.
pub mod Totals
pub mod Run
use ts_restic_server.Common.{ℕ, Bool, Option, none, some, List, [], ◌∷◌, ◌++◌, if◌then◌else◌, leb}
use ts_restic_server.Common.Text.{Bytes}
use ts_restic_server.Http.{Request, Response, Reply, reply, panicked, Handler}
use ts_restic_server.Middleware.RepoPrefix.{slash}

-- What net/http and echo tell of an exchange: c.Path(), which is the pattern of the route, the
-- content length (0 where it is not known), the status by ResolveResponseStatus, and the size of
-- the response where there is one.
pub record Observed : Type 0 where
  pub route : Request → Bytes
  pub content_length : Request → ℕ
  pub resolve_status : Response → ℕ
  pub size : Response → Option ℕ

-- One update of a metric with its labels.
pub data Update : Type 0 where
  -- method, path and status code
  observed_duration counted_request counted_error : Bytes → Bytes → ℕ → Update
  -- identity, repository path and method
  counted_host_request : Bytes → Bytes → Bytes → Update
  -- identity and repository path
  added_received added_sent : Bytes → Bytes → ℕ → Update

abbrev pub identity_label : Request → Bytes
identity_label c = first c.identities
  where
    first : List Bytes → Bytes
    first [] = c.real_ip
    first (identity ∷ rest) = identity

abbrev pub repo_label : Request → Bytes
repo_label c = slash ∷ c.repo_prefix

abbrev pub sent_updates : Request → Option ℕ → List Update
sent_updates c none = []
sent_updates c (some n) = added_sent (identity_label c) (repo_label c) n ∷ []

unfoldable pub host_updates : Observed → Request → Response → List Update
host_updates v c r =
    counted_host_request (identity_label c) (repo_label c) c.method
    ∷ ((if leb 1 (v.content_length c)
          then added_received (identity_label c) (repo_label c) (v.content_length c) ∷ []
          else [])
        ++ sent_updates c (v.size r))

unfoldable pub request_updates : Observed → Request → Response → List Update
request_updates v c r =
    observed_duration c.method (v.route c) (v.resolve_status r)
    ∷ counted_request c.method (v.route c) (v.resolve_status r)
    ∷ (if leb 400 (v.resolve_status r)
        then counted_error c.method (v.route c) (v.resolve_status r) ∷ []
        else [])

-- A panic of the handler passes through, and nothing is recorded.
unfoldable pub recorded : Observed → Bool → Request → Reply → List Update
unfolding request_updates host_updates
recorded v per_host c panicked = []
recorded v per_host c (reply r) =
    request_updates v c r ++ (if per_host then host_updates v c r else [])

-- Metrics around the handler `next`
unfoldable pub metrics : {S : Type 0} → Observed → Bool → Handler S → Handler (S × List Update)
unfolding recorded
metrics v per_host next c (s, log) =
    let (answer, s') = next c s in (answer, (s', log ++ recorded v per_host c answer))
