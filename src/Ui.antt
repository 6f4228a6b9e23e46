-- ===== src/Ui.antt =====
-- internal/ui/handler.go: the web interface. A page is the data that its template is executed with; the
-- embedded files and html/template are parameters, static files are left to net/http, and a random
-- token and what a browser sends are fields of the request.
pub mod Routes
pub mod Guarded
pub mod AppendOnly
pub mod Root
pub mod LockForm
use ts_restic_server.Common.{
  ℕ, ◌+◌, ◌/◌, ◌%◌, Bool, true, false, not, ◌||◌, Option, none, some, List, [], ◌∷◌, ◌++◌, length,
  any, inl, inr, if◌then◌else◌, ltb,
}
use ts_restic_server.Common.Int64.{lt64}
use ts_restic_server.Common.Text.{Bytes, codes, eqs, join, cut_suffix}
use ts_restic_server.Storage.{
  Error, Result, ok, err, panic, Backend, Blob, blob_locks, valid_blob_name,
}
use ts_restic_server.Stats.{Counters, Table, zero_counters}
use ts_restic_server.Stats.Queries.{get_repo_stats, get_all_repo_stats, get_summary}
use ts_restic_server.Middleware.RepoPrefix.{slash, split_repo_path}

-- Handler: the store reads its table in the state, and answers errors where it is not available; nil
-- pointers are `none`. `error_text` is what Error() prints.
pub record UiHandler (S : Type 0) : Type 0 where
  pub store : Option (S → Table)
  pub available : Bool
  pub backend : Option (Backend S)
  pub templates : List Bytes
  pub error_text : Error → Bytes

-- What the handlers read of a request: c.Param("*"), the form, the cookie csrf_token, the query, the
-- credentials, and the 16 bytes that crypto/rand gives while it is served.
pub record UiRequest : Type 0 where
  pub param : Bytes
  pub lock_name : Bytes
  pub form_token : Bytes
  pub cookie : Option Bytes
  pub flash : Bytes
  pub flash_type : Bytes
  pub basic_auth : Option (Bytes × Bytes)
  pub random : List ℕ

-- RepoStats.RepoPath: a path, nothing, or the text "(N repositories)"
pub data RepoLabel : Type 0 where
  path_label : Bytes → RepoLabel
  count_label : ℕ → RepoLabel

pub record DashboardPage : Type 0 where
  pub stats_enabled : Bool
  pub repo_count : ℕ
  pub summary_label : RepoLabel
  pub summary : Counters
  pub rows : List (Bytes × Counters)

-- repoWithLocks
pub record RepoWithLocks : Type 0 where
  pub repo_path : Bytes
  pub repo_stats : Counters
  pub lock_count : ℕ

pub record DetailPage : Type 0 where
  pub stats_enabled : Bool
  pub repo_path : Bytes
  pub repo_stats : Counters
  pub total_ops : ℕ
  pub locks : List Blob
  -- the cookie that is set, and the hidden field of the forms
  pub csrf_cookie : Bytes
  pub csrf_token : Bytes
  pub flash : Bytes
  pub flash_type : Bytes

pub data Page : Type 0 where
  dashboard_page : DashboardPage → Page
  repos_page : Bool → List RepoWithLocks → Page
  detail_page : DetailPage → Page

-- A redirect has its status and location, a failure its status and message.
pub data Answer : Type 0 where
  rendered : Page → Answer
  redirected failed : ℕ → Bytes → Answer
  unauthorized static_file ui_panicked : Answer

abbrev pub UiAction : Type 0 → Type 0
UiAction S = UiRequest → S → Answer × S

-- loadTemplates: the names of the pages that are parsed; `none` is its error
abbrev pub pages : List Bytes
pages = codes "dashboard.html" ∷ codes "repos.html" ∷ codes "repo_detail.html" ∷ []

unfoldable pub parse_pages :
    (Bytes → Option Bytes) → (Bytes → Bool) → Bytes → List Bytes → Option (List Bytes)
parse_pages read_file parses layout [] = some []
parse_pages read_file parses layout (page ∷ rest) =
    let later = parse_pages read_file parses layout rest in
    elim (read_file (codes "templates/" ++ page)) [
      | none ↦ none
      | some text ↦
          if not (parses (layout ++ codes "\n" ++ text))
          then none
          else elim later [ none ↦ none | some names ↦ some (page ∷ names) ]
    ]

unfoldable pub load_templates : (Bytes → Option Bytes) → (Bytes → Bool) → Option (List Bytes)
load_templates read_file parses = elim (read_file (codes "templates/layout.html")) [
  | none ↦ none
  | some layout ↦ parse_pages read_file parses layout pages
]

-- render
abbrev pub render : {S : Type 0} → UiHandler S → Bytes → Page → Answer
render h name page =
    if any (eqs name) h.templates
    then rendered page
    else failed 500 (codes "template not found: " ++ name)

-- repoParam
unfoldable pub repo_param : Bytes → Option Bytes
repo_param p = elim (split_repo_path p) [ inl e ↦ none | inr segments ↦ some (join slash segments) ]

-- generateCSRFToken: hex.EncodeToString
abbrev pub lower_hex : ℕ → ℕ
lower_hex n = if ltb n 10 then b'0' + n else b'W' + n

unfoldable pub generate_csrf_token : List ℕ → Bytes
generate_csrf_token [] = []
generate_csrf_token (b ∷ bs) = lower_hex (b / 16) ∷ lower_hex (b % 16) ∷ generate_csrf_token bs

abbrev pub or_nil : {A : Type 0} → Option (List A) → List A
or_nil none = []
or_nil (some xs) = xs

abbrev pub or_zeros : Option (Option Counters) → Counters
or_zeros (some (some row)) = row
or_zeros (some none) = zero_counters
or_zeros none = zero_counters

abbrev pub all_rows : {S : Type 0} → UiHandler S → S → List (Bytes × Counters)
all_rows h s = elim h.store [
  | none ↦ []
  | some table ↦ or_nil (get_all_repo_stats h.available (table s))
]

abbrev pub enabled : {S : Type 0} → UiHandler S → Bool
enabled h = elim h.store [ none ↦ false | some table ↦ true ]

abbrev pub summary_of : {S : Type 0} → UiHandler S → S → Option (Counters × ℕ)
summary_of h s = elim h.store [ none ↦ none | some table ↦ get_summary h.available (table s) ]

-- Dashboard
unfoldable pub dashboard_data : {S : Type 0} → UiHandler S → S → DashboardPage
unfolding get_all_repo_stats get_summary
dashboard_data h s = record {
  stats_enabled = enabled h;
  repo_count = length (all_rows h s);
  summary_label = elim (summary_of h s) [ none ↦ path_label [] | some (sums, n) ↦ count_label n ];
  summary = elim (summary_of h s) [ none ↦ zero_counters | some (sums, n) ↦ sums ];
  rows = all_rows h s;
}

unfoldable pub dashboard : {S : Type 0} → UiHandler S → UiAction S
unfolding dashboard_data
dashboard h c s = (render h (codes "dashboard.html") (dashboard_page (dashboard_data h s)), s)

-- the locks of a repository: none of them on an error or without a backend; a panic is `none`
abbrev pub locks_or_nil : Result (List Blob) → Option (List Blob)
locks_or_nil (ok locks) = some locks
locks_or_nil (err e) = some []
locks_or_nil panic = none

unfoldable pub repo_locks : {S : Type 0} → UiHandler S → Bytes → S → Option (List Blob)
repo_locks h repo_path s = elim h.backend [
  | none ↦ some []
  | some b ↦ locks_or_nil (b.list_blobs repo_path blob_locks s)
]

-- the loop of RepoList
unfoldable pub with_locks :
    {S : Type 0} → UiHandler S → List (Bytes × Counters) → S → Option (List RepoWithLocks)
unfolding repo_locks
with_locks h [] s = some []
with_locks h ((path, row) ∷ rows) s =
    let later = with_locks h rows s in
    elim (repo_locks h path s) [
      | none ↦ none
      | some locks ↦ elim later [
        | none ↦ none
        | some repos ↦
            some (record { repo_path = path; repo_stats = row; lock_count = length locks } ∷ repos)
      ]
    ]

-- RepoList
unfoldable pub repo_list : {S : Type 0} → UiHandler S → UiAction S
unfolding with_locks
repo_list h c s = elim (with_locks h (all_rows h s) s) [
  | none ↦ (ui_panicked, s)
  | some repos ↦ (render h (codes "repos.html") (repos_page (enabled h) repos), s)
]

abbrev pub row_of : {S : Type 0} → UiHandler S → Bytes → S → Counters
row_of h repo_path s = elim h.store [
  | none ↦ zero_counters
  | some table ↦ or_zeros (get_repo_stats h.available (table s) repo_path)
]

unfoldable pub detail_data :
    {S : Type 0} → UiHandler S → UiRequest → Bytes → List Blob → S → DetailPage
unfolding get_repo_stats generate_csrf_token
detail_data h c repo_path locks s =
    let row = row_of h repo_path s in
    record {
      stats_enabled = enabled h;
      repo_path = repo_path;
      repo_stats = row;
      total_ops = row.write_count + row.read_count + row.delete_count;
      locks = locks;
      csrf_cookie = generate_csrf_token c.random;
      csrf_token = generate_csrf_token c.random;
      flash = c.flash;
      flash_type = c.flash_type;
    }

-- RepoDetail
unfoldable pub repo_detail : {S : Type 0} → UiHandler S → UiAction S
unfolding repo_param repo_locks detail_data
repo_detail h c s = elim (repo_param c.param) [
  | none ↦ (failed 400 (codes "invalid repository path"), s)
  | some repo_path ↦ elim (repo_locks h repo_path s) [
    | none ↦ (ui_panicked, s)
    | some locks ↦
        (render h (codes "repo_detail.html") (detail_page (detail_data h c repo_path locks s)), s)
  ]
]
