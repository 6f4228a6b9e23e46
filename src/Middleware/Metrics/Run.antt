-- ===== src/Middleware/Metrics/Run.antt =====
-- What the metrics of internal/middleware/metrics.go say of a run of requests, and what they do not
-- change of it.
use ts_restic_server.Common.{
  ℕ, ◌+◌, ◌≡◌, Bool, ◌&&◌, Option, none, some, List, [], if◌then◌else◌, leb,
}
use ts_restic_server.Common.Text.{Bytes, eqs}
use ts_restic_server.Http.{Request, Response, Reply, Handler}
use ts_restic_server.Middleware.Metrics.{
  Observed, Update, observed_duration, counted_request, counted_error, counted_host_request,
  added_received, added_sent, identity_label, repo_label, metrics,
}
use ts_restic_server.Middleware.Metrics.Totals.{
  exchanges, total, sum_over, only_if, same_labels, requests_total, errors_total, received_total,
  host_requests_total, sent_total,
}

abbrev pub or_zero : Option ℕ → ℕ
or_zero none = 0
or_zero (some n) = n

-- The responses to requests with a method, a route and a status.
abbrev pub answered : Observed → Bytes → Bytes → ℕ → Request → Response → ℕ
answered v m p st c r = only_if (same_labels m p st c.method (v.route c) (v.resolve_status r)) 1

-- The requests of an identity for a repository path with a method.
abbrev pub host_request : Bytes → Bytes → Bytes → Request → ℕ
host_request i p m c =
    only_if (eqs i (identity_label c) && eqs p (repo_label c) && eqs m c.method) 1

-- A number that counts only for an identity and a repository path.
abbrev pub for_host : Bytes → Bytes → Request → ℕ → ℕ
for_host i p c n = only_if (eqs i (identity_label c) && eqs p (repo_label c)) n

abbrev pub sent_weight : (Update → ℕ) → Request → Option ℕ → ℕ
sent_weight w c none = 0
sent_weight w c (some n) = w (added_sent (identity_label c) (repo_label c) n)

abbrev pub host_weight : (Update → ℕ) → Observed → Request → Response → ℕ
host_weight w v c r =
    w (counted_host_request (identity_label c) (repo_label c) c.method)
    + only_if (leb 1 (v.content_length c))
        (w (added_received (identity_label c) (repo_label c) (v.content_length c)))
    + sent_weight w c (v.size r)

abbrev pub request_weight : (Update → ℕ) → Observed → Request → Response → ℕ
request_weight w v c r =
    w (observed_duration c.method (v.route c) (v.resolve_status r))
    + w (counted_request c.method (v.route c) (v.resolve_status r))
    + only_if (leb 400 (v.resolve_status r))
        (w (counted_error c.method (v.route c) (v.resolve_status r)))

-- What the updates say of the exchanges.
pub record IsCounted (v : Observed) (per_host : Bool) (es : List (Request × Reply))
    (log : List Update) : Type 0 where
  pub requests :
      (m p : Bytes) (st : ℕ) → total (requests_total m p st) log ≡ sum_over (answered v m p st) es
  pub errors :
      (m p : Bytes) (st : ℕ)
      → total (errors_total m p st) log
        ≡ (if leb 400 st then sum_over (answered v m p st) es else 0)
  pub host_requests :
      (i p m : Bytes)
      → total (host_requests_total i p m) log
        ≡ (if per_host then sum_over (λ c r. host_request i p m c) es else 0)
  pub received :
      (i p : Bytes)
      → total (received_total i p) log
        ≡ (if per_host then sum_over (λ c r. for_host i p c (v.content_length c)) es else 0)
  pub sent :
      (i p : Bytes)
      → total (sent_total i p) log
        ≡ (if per_host then sum_over (λ c r. for_host i p c (or_zero (v.size r))) es else 0)

module _ {S : Type 0} (v : Observed) (per_host : Bool) (next : Handler S) (cs : List Request)
    (s : S) where
  abbrev pub observed_run : List (Request × Reply) × (S × List Update)
  observed_run = exchanges (metrics v per_host next) cs (s, [])
