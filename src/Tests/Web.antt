-- ===== src/Tests/Web.antt =====
-- Tests of internal/ui, and of the API behind the tracking and the metrics.
use ts_restic_server.Common.{◌≡◌, ◌≢◌, refl, ◌⊎◌, true, false, none, some, List, [], ◌∷◌, String}
use ts_restic_server.Common.Text.{Bytes, codes, eqs, split, join}
use ts_restic_server.Common.Dict.{get, put}
use ts_restic_server.Storage.{Backend, Reader, blob_data, blob_locks, save_blob_call}
use ts_restic_server.Stats.{Table, zero_counters, counters, record_write}
use ts_restic_server.Stats.Queries.{get_repo_stats}
use ts_restic_server.Memory.{Memory, new, create_repo, save_config}
use ts_restic_server.Memory.Blobs
use ts_restic_server.Memory.Blobs.{find_blob, save_blob, list_blobs}
use ts_restic_server.Memory.Kept.{config_of}
use ts_restic_server.Http.{Request}
use ts_restic_server.Instrumented
use ts_restic_server.Instrumented.{Observation}
use ts_restic_server.Tracked
use ts_restic_server.Api.Server.{Endpoint, serve_all}
use ts_restic_server.Api.Wrapped.{
  api_handler, replies, observed, observed-IsWrapper, replies-observed,
}
use ts_restic_server.Middleware.RepoPrefix.{split_repo_path, check_segments}
use ts_restic_server.Ui.{
  UiHandler, UiRequest, DetailPage, detail_page, rendered, pages, repo_param, repo_locks,
  detail_data, repo_detail, generate_csrf_token,
}
use ts_restic_server.Ui.Routes.{delete_lock_suffix, lock_form, serve_ui}
use ts_restic_server.Ui.Guarded.{IsRefusedLogin, IsServed, serve_ui-guarded}
use ts_restic_server.Ui.AppendOnly.{
  AnyRequest, to_api, to_ui, after_requests, after_requests-keeps_blobs,
  after_requests-keeps_config,
}
use ts_restic_server.Common.{inl, inr, ◌++◌, Option-cases}
use ts_restic_server.Tracked.Transparent.{IsReturning}
use ts_restic_server.Ui.Root.{Traffic, called, after_traffic, root_page-zero}

abbrev repo_a : Bytes
repo_a = codes "a"

abbrev lock_1 : Bytes
lock_1 = codes "01"

abbrev body_of : String → Reader
body_of text = record { content = codes text; fails = false }

-- The backend as serve wraps it, and its state.
abbrev Stack : Type 0
Stack = (Memory × List Observation) × Table

abbrev stack : Backend Stack
stack = observed Blobs.backend (codes "memory") (λ m. 1) true

-- A repository with a config, a blob and a lock.
abbrev filled : Memory
filled =
    (save_blob repo_a blob_locks lock_1 (body_of "lock")
      (save_blob repo_a blob_data lock_1 (body_of "data")
        (save_config repo_a (body_of "cfg") (create_repo repo_a (new 100)).1).1).1).1

abbrev at_start : Stack
at_start = ((filled, []), [])

abbrev web : UiHandler Stack
web = record {
  store = some (λ st. st.1);
  available = true;
  backend = some stack;
  templates = pages;
  error_text = λ e. codes "failed";
}

abbrev ui_request : String → UiRequest
ui_request param = record {
  param = codes param;
  lock_name = [];
  form_token = [];
  cookie = none;
  flash = [];
  flash_type = [];
  basic_auth = some (codes "admin", codes "secret");
  random = 1 ∷ 2 ∷ [];
}

-- A form that deletes the lock.
abbrev lock_request : UiRequest
lock_request = record (ui_request "a/delete-lock") {
  lock_name = lock_1;
  form_token = codes "token";
  cookie = some (codes "token");
}

serve_ui-guarded_example :
    IsRefusedLogin web
      (codes "admin")
      (codes "secret")
      lock_request
      at_start
      (serve_ui web (codes "admin") (codes "secret") lock_form lock_request at_start)
    ⊎ IsServed web
        (codes "admin")
        (codes "secret")
        lock_form
        lock_request
        at_start
        (serve_ui web (codes "admin") (codes "secret") lock_form lock_request at_start)
serve_ui-guarded_example =
    serve_ui-guarded web (codes "admin") (codes "secret") lock_form lock_request at_start

abbrev api_request : String → Bytes → String → Request
api_request method t text = record {
  method = codes method;
  path = [];
  body = body_of text;
  range_header = [];
  accept_header = [];
  create_param = [];
  type_param = t;
  name_param = lock_1;
  real_ip = [];
  remote_addr = [];
  repo_prefix = repo_a;
  identities = [];
  who_is = none;
  append_only = false;
  request_id = [];
}

-- Requests that try to delete the blob, its repository and the config, and that delete the lock.
abbrev api_attack : List (Endpoint × Request)
api_attack =
    (Endpoint.delete_blob, api_request "DELETE" blob_data "")
    ∷ (Endpoint.delete_repo, api_request "DELETE" [] "")
    ∷ (Endpoint.save_config, api_request "POST" [] "evil")
    ∷ []

abbrev attack : List AnyRequest
attack =
    to_api Endpoint.delete_blob (api_request "DELETE" blob_data "")
    ∷ to_ui lock_form lock_request
    ∷ to_api Endpoint.delete_repo (api_request "DELETE" [] "")
    ∷ to_api Endpoint.save_config (api_request "POST" [] "evil")
    ∷ []

data_there : find_blob repo_a blob_data lock_1 filled ≡ some (codes "data")
unfolding find_blob save_blob save_config create_repo new get put eqs
data_there = refl

config_there : config_of repo_a filled ≡ some (codes "cfg")
unfolding save_blob save_config create_repo new get put eqs
config_there = refl

memory-IsReturning : IsReturning Blobs.backend
unfolding Blobs.stat_blob
memory-IsReturning key kind name m = elim (Option-cases (find_blob key kind name m)) [
  | inl nothing ↦ (λ e. absurd (let k = rw (nothing, Blobs.stat_blob) at e in cc))
  | inr (content, held) ↦ (λ e. absurd (let k = rw (held, Blobs.stat_blob) at e in cc))
]

after_requests-keeps_blobs_example :
    find_blob repo_a blob_data lock_1
      (after_requests stack web (codes "admin") (codes "secret") attack at_start).0.0
    ≢ none
after_requests-keeps_blobs_example =
    after_requests-keeps_blobs
      (observed-IsWrapper Blobs.backend (codes "memory") (λ m. 1) true memory-IsReturning) web refl
      (codes "admin") (codes "secret") attack at_start repo_a blob_data lock_1 (λ e. cc)
      (rw data_there (λ e. cc))

after_requests-keeps_config_example :
    config_of repo_a (after_requests stack web (codes "admin") (codes "secret") attack at_start).0.0
    ≡ some (codes "cfg")
after_requests-keeps_config_example =
    after_requests-keeps_config
      (observed-IsWrapper Blobs.backend (codes "memory") (λ m. 1) true memory-IsReturning) web refl
      (codes "admin") (codes "secret") attack at_start repo_a (codes "cfg") config_there

replies-observed_example :
    (replies (api_handler stack false) api_attack at_start
      ≡ replies (api_handler Blobs.backend false) api_attack filled)
    × ((serve_all (api_handler stack false) api_attack at_start).0.0
        ≡ serve_all (api_handler Blobs.backend false) api_attack filled)
replies-observed_example =
    replies-observed Blobs.backend (codes "memory") (λ m. 1) true memory-IsReturning false
      api_attack filled [] []

-- The page of the repository with its lock, and its form.
abbrev page_a : DetailPage
page_a = record {
  stats_enabled = true;
  repo_path = repo_a;
  repo_stats = zero_counters;
  total_ops = 0;
  locks = (record { name = lock_1; size = 4 }) ∷ [];
  csrf_cookie = codes "0102";
  csrf_token = codes "0102";
  flash = [];
  flash_type = [];
}

-- A browser that escapes nothing.
abbrev sent : Bytes → Bytes
sent path = path ++ delete_lock_suffix

-- A blob that is saved in the root repository.
abbrev root_traffic : List Traffic
root_traffic = called (save_blob_call [] blob_data lock_1 (body_of "data")) ∷ []

abbrev at_root : Memory
at_root = (create_repo [] (new 100)).1

abbrev tracked_web : UiHandler (Memory × Table)
tracked_web = record {
  store = some (λ st. st.1);
  available = true;
  backend = some (Tracked.backend Blobs.backend true);
  templates = pages;
  error_text = λ e. codes "failed";
}

abbrev root_page : DetailPage
root_page = record page_a { repo_path = []; locks = [] }

root_shown :
    (repo_detail tracked_web
      (ui_request "/")
      (after_traffic Blobs.backend true root_traffic (at_root, []))).0
    ≡ rendered (detail_page root_page)
unfolding repo_detail repo_param split_repo_path check_segments split join eqs repo_locks
    detail_data get_repo_stats generate_csrf_token list_blobs save_blob create_repo new get put
    after_traffic Tracked.save_blob Tracked.repo_path record_write
root_shown = refl

root_accepted : repo_param (codes "/") ≡ some []
unfolding repo_param split_repo_path check_segments split join eqs
root_accepted = refl

-- What was saved is counted under "/".
root_counted :
    counters (after_traffic Blobs.backend true root_traffic (at_root, [])).1 (codes "/")
    ≡ record zero_counters { bytes_written = 4; write_count = 1 }
unfolding counters after_traffic Tracked.save_blob Tracked.repo_path record_write save_blob
    create_repo new get put eqs
root_counted = refl

root_page-zero_example : (root_page.repo_stats ≡ zero_counters) × (root_page.total_ops ≡ 0)
root_page-zero_example =
    root_page-zero Blobs.backend true tracked_web refl root_traffic at_root (ui_request "/")
      root_page root_accepted root_shown
