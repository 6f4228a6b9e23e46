-- ===== src/Ui/Routes.antt =====
-- internal/ui/handler.go: the deletion of a lock, the routes with their credentials, and the numbers
-- that the pages print.
use ts_restic_server.Common.{
  ℕ, ◌*◌, Bool, false, not, ◌||◌, Option, none, some, [], ◌++◌, if◌then◌else◌,
}
use ts_restic_server.Common.Int64.{lt64}
use ts_restic_server.Common.Text.{Bytes, codes, eqs, cut_suffix}
use ts_restic_server.Storage.{Result, ok, err, panic, blob_locks, valid_blob_name}
use ts_restic_server.Ui.{
  UiHandler, UiRequest, Answer, redirected, failed, unauthorized, static_file, ui_panicked,
  UiAction, repo_param, dashboard, repo_list, repo_detail,
}

abbrev pub delete_lock_suffix : Bytes
delete_lock_suffix = codes "/delete-lock"

-- redirectURL
abbrev pub redirect_url : Bytes → Bytes
redirect_url repo_path = codes "/-/ui/repos/" ++ repo_path ++ codes "/"

abbrev pub see_other : Bytes → Bytes → Answer
see_other repo_path query = redirected 303 (redirect_url repo_path ++ query)

-- the cookie is there, not empty, and the form's token
unfoldable pub valid_token : UiRequest → Bool
unfolding eqs
valid_token c = elim c.cookie [
  | none ↦ false
  | some token ↦ not (eqs token [] || not (eqs token c.form_token))
]

abbrev pub delete_answer : {S : Type 0} → UiHandler S → Bytes → Result (Unit {0}) → Answer
delete_answer h repo_path (ok _) =
    see_other repo_path (codes "?msg=Lock+deleted+successfully&type=success")
delete_answer h repo_path (err e) =
    see_other repo_path
      (codes "?msg=" ++ codes "Failed+to+delete+lock:+" ++ h.error_text e ++ codes "&type=danger")
delete_answer h repo_path panic = ui_panicked

-- DeleteLock, once its path names a repository
unfoldable pub delete_lock_of : {S : Type 0} → UiHandler S → Bytes → UiAction S
unfolding valid_token valid_blob_name
delete_lock_of h repo_path c s =
    if not (valid_token c)
    then (see_other repo_path (codes "?msg=Invalid+CSRF+token&type=danger"), s)
    else if not (valid_blob_name c.lock_name)
    then (see_other repo_path (codes "?msg=Invalid+lock+name&type=danger"), s)
    else elim h.backend [
      | none ↦ (see_other repo_path (codes "?msg=Backend+not+available&type=danger"), s)
      | some b ↦
          let (result, s') = b.delete_blob repo_path blob_locks c.lock_name s in
          (delete_answer h repo_path result, s')
    ]

-- DeleteLock
unfoldable pub delete_lock : {S : Type 0} → UiHandler S → UiAction S
unfolding delete_lock_of repo_param cut_suffix
delete_lock h c s = elim (cut_suffix c.param delete_lock_suffix) [
  | none ↦ (failed 404 (codes "Not Found"), s)
  | some p ↦ elim (repo_param p) [
    | none ↦ (failed 400 (codes "invalid repository path"), s)
    | some repo_path ↦ delete_lock_of h repo_path c s
  ]
]

-- the credentials of the request are these
unfoldable pub right_credentials : Bytes → Bytes → Option (Bytes × Bytes) → Bool
unfolding eqs
right_credentials username password none = false
right_credentials username password (some (u, p)) =
    not (not (eqs u username) || not (eqs p password))

-- basicAuth around the action `next`
unfoldable pub basic_auth : {S : Type 0} → Bytes → Bytes → UiAction S → UiAction S
unfolding right_credentials
basic_auth username password next c s =
    if not (right_credentials username password c.basic_auth) then (unauthorized, s) else next c s

pub data UiEndpoint : Type 0 where
  static_files index_page index_redirect repos_list repo_page lock_form : UiEndpoint

-- The actions of the routes that RegisterRoutes adds.
abbrev pub action : {S : Type 0} → UiHandler S → UiEndpoint → UiAction S
action h static_files c s = (static_file, s)
action h index_page c s = dashboard h c s
action h index_redirect c s = (redirected 301 (codes "/-/ui/"), s)
action h repos_list c s = repo_list h c s
action h repo_page c s = repo_detail h c s
action h lock_form c s = delete_lock h c s

-- RegisterRoutes: a route of the group behind its credentials, where a user name is set
unfoldable pub serve_ui : {S : Type 0} → UiHandler S → Bytes → Bytes → UiEndpoint → UiAction S
unfolding basic_auth dashboard repo_list repo_detail delete_lock eqs
serve_ui h auth_user auth_pass endpoint c s =
    if not (eqs auth_user [])
    then basic_auth auth_user auth_pass (action h endpoint) c s
    else action h endpoint c s

-- formatBytes: a number of bytes, or a quotient of float64 with its unit, printed by %.1f
pub data ByteText : Type 0 where
  whole_bytes : ℕ → ByteText
  quotient : ℕ → ℕ → Bytes → ByteText

abbrev pub kb : ℕ
kb = 1024

abbrev pub mb : ℕ
mb = 1024 * kb

abbrev pub gb : ℕ
gb = 1024 * mb

abbrev pub tb : ℕ
tb = 1024 * gb

unfoldable pub format_bytes : ℕ → ByteText
unfolding lt64
format_bytes b =
    if not (lt64 b tb)
    then quotient b tb (codes " TB")
    else if not (lt64 b gb)
    then quotient b gb (codes " GB")
    else if not (lt64 b mb)
    then quotient b mb (codes " MB")
    else if not (lt64 b kb)
    then quotient b kb (codes " KB")
    else whole_bytes b
