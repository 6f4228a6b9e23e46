-- ===== src/Middleware/Metrics/Totals.antt =====
-- The metrics of internal/middleware/metrics.go after any sequence of requests.
use ts_restic_server.Common.{
  ℕ, ◌+◌, ◌≡◌, refl, ap, Bool, true, false, ◌&&◌, List, [], ◌∷◌, ◌++◌, if◌then◌else◌, ◌==◌, arith,
}
use ts_restic_server.Common.Text.{Bytes, eqs}
use ts_restic_server.Http.{Request, Response, Reply, reply, panicked, Handler}
use ts_restic_server.Middleware.Metrics.{
  Observed, Update, counted_request, counted_error, counted_host_request, added_received,
  added_sent, recorded, metrics,
}

-- Requests with their replies, one after the other.
unfoldable pub exchanges : {S : Type 0} → Handler S → List Request → S → List (Request × Reply) × S
exchanges next [] s = ([], s)
exchanges next (c ∷ cs) s =
    let (answer, s') = next c s in
    let (rest, s'') = exchanges next cs s' in ((c, answer) ∷ rest, s'')

-- The sum of a weight over the updates.
unfoldable pub total : (Update → ℕ) → List Update → ℕ
total w [] = 0
total w (u ∷ us) = w u + total w us

-- The sum of a value over the exchanges that ended with a response.
unfoldable pub sum_over : (Request → Response → ℕ) → List (Request × Reply) → ℕ
sum_over f [] = 0
sum_over f ((c, reply r) ∷ es) = f c r + sum_over f es
sum_over f ((c, panicked) ∷ es) = sum_over f es

abbrev pub only_if : Bool → ℕ → ℕ
only_if test n = if test then n else 0

abbrev pub same_labels : Bytes → Bytes → ℕ → Bytes → Bytes → ℕ → Bool
same_labels m p st m' p' st' = eqs m m' && eqs p p' && (st == st')

-- restic_server_http_requests_total of a method, a path and a status code
abbrev pub requests_total : Bytes → Bytes → ℕ → Update → ℕ
requests_total m p st (counted_request m' p' st') = only_if (same_labels m p st m' p' st') 1
requests_total m p st _ = 0

-- restic_server_http_errors_total of a method, a path and a status code
abbrev pub errors_total : Bytes → Bytes → ℕ → Update → ℕ
errors_total m p st (counted_error m' p' st') = only_if (same_labels m p st m' p' st') 1
errors_total m p st _ = 0

-- restic_server_host_requests_total of an identity, a repository path and a method
abbrev pub host_requests_total : Bytes → Bytes → Bytes → Update → ℕ
host_requests_total i p m (counted_host_request i' p' m') =
    only_if (eqs i i' && eqs p p' && eqs m m') 1
host_requests_total i p m _ = 0

-- restic_server_host_bytes_received_total of an identity and a repository path
abbrev pub received_total : Bytes → Bytes → Update → ℕ
received_total i p (added_received i' p' n) = only_if (eqs i i' && eqs p p') n
received_total i p _ = 0

-- restic_server_host_bytes_sent_total of an identity and a repository path
abbrev pub sent_total : Bytes → Bytes → Update → ℕ
sent_total i p (added_sent i' p' n) = only_if (eqs i i' && eqs p p') n
sent_total i p _ = 0

abbrev pub value_of : (Request → Response → ℕ) → Request → Reply → ℕ
value_of f c (reply r) = f c r
value_of f c panicked = 0

pub total-append :
    (w : Update → ℕ) (us vs : List Update) → total w (us ++ vs) ≡ total w us + total w vs
unfolding total
total-append w [] vs = omega arith
total-append w (u ∷ us) vs = ground (arith, total-append w us vs)

sum_over-cons :
    (f : Request → Response → ℕ) (c : Request) (answer : Reply) (es : List (Request × Reply))
    → sum_over f ((c, answer) ∷ es) ≡ value_of f c answer + sum_over f es
unfolding sum_over
sum_over-cons f c (reply r) es = refl
sum_over-cons f c panicked es = omega arith

pub sum_over-scaled :
    (test : Bool) (f : Request → Response → ℕ) (es : List (Request × Reply))
    → sum_over (λ c r. only_if test (f c r)) es ≡ only_if test (sum_over f es)
unfolding sum_over
sum_over-scaled true f es = refl
sum_over-scaled false f [] = refl
sum_over-scaled false f ((c, reply r) ∷ es) = ap (λ n. 0 + n) (sum_over-scaled false f es)
sum_over-scaled false f ((c, panicked) ∷ es) = sum_over-scaled false f es

module _ {S : Type 0} (v : Observed) (per_host : Bool) (next : Handler S) where
  pub exchanges-same :
      (cs : List Request) (s : S) (log : List Update)
      → ((exchanges (metrics v per_host next) cs (s, log)).0 ≡ (exchanges next cs s).0)
        × ((exchanges (metrics v per_host next) cs (s, log)).1.0 ≡ (exchanges next cs s).1)
  unfolding exchanges metrics
  exchanges-same [] s log = (refl, refl)
  exchanges-same (c ∷ cs) s log =
      let (answer, s') = next c s in
      let rest = exchanges-same cs s' (log ++ recorded v per_host c answer) in
      (ap (λ es. (c, answer) ∷ es) rest.0, rest.1)

  pub total-exchanges :
      (w : Update → ℕ) (f : Request → Response → ℕ)
      → ((c : Request) (r : Response) → total w (recorded v per_host c (reply r)) ≡ f c r)
      → (cs : List Request) (s : S) (log : List Update)
      → total w (exchanges (metrics v per_host next) cs (s, log)).1.1
        ≡ total w log + sum_over f (exchanges next cs s).0
  unfolding exchanges metrics sum_over
  total-exchanges w f each [] s log = omega arith
  total-exchanges w f each (c ∷ cs) s log =
      let (answer, s') = next c s in
      let es = (exchanges next cs s').0 in
      rw
        (
          total-exchanges w f each cs s' (log ++ recorded v per_host c answer),
          total-append w log (recorded v per_host c answer),
          total_one answer,
          sum_over-cons f c answer es,
        )
        (omega arith)
    where
      total_one : (answer : Reply) → total w (recorded v per_host c answer) ≡ value_of f c answer
      total_one (reply r) = each c r
      total_one panicked = unfold recorded in unfold total in refl
