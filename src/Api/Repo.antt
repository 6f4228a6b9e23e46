-- ===== src/Api/Repo.antt =====
-- internal/api/repo.go: creating and deleting a repository.
use ts_restic_server.Common.{not, if◌then◌else◌}
use ts_restic_server.Common.Text.{codes, eqs}
use ts_restic_server.Storage.{Result, ok, err, panic}
use ts_restic_server.Http.{Request, Reply, panicked, Handler}
use ts_restic_server.Api.{
  ApiHandler, api_error, empty_reply, internal_error, is_repo_exists, is_repo_not_found,
}

abbrev pub create_result : Request → Result (Unit {0}) → Reply
create_result c (ok _) = empty_reply 200
create_result c (err e) = if is_repo_exists e then empty_reply 200 else internal_error c
create_result c panic = panicked

abbrev pub create_refused : Request → Reply
create_refused c =
    api_error c 400 (codes "bad request")
      (codes "repository does not exist and ?create=true was not provided")

-- CreateRepo
unfoldable pub create_repo : {S : Type 0} → ApiHandler S → Handler S
create_repo h c s =
    if not (eqs c.create_param (codes "true"))
    then (create_refused c, s)
    else (let (result, s') = h.backend.create_repo c.repo_prefix s in (create_result c result, s'))

abbrev pub delete_result : Request → Result (Unit {0}) → Reply
delete_result c (ok _) = empty_reply 200
delete_result c (err e) =
    if is_repo_not_found e
    then api_error c 404 (codes "not found") (codes "repository not found")
    else internal_error c
delete_result c panic = panicked

-- DeleteRepo
unfoldable pub delete_repo : {S : Type 0} → ApiHandler S → Handler S
delete_repo h c s =
    if h.append_only
    then (
      api_error c 403 (codes "forbidden")
          (codes "append-only mode: repository deletion is not allowed"),
      s,
    )
    else (let (result, s') = h.backend.delete_repo c.repo_prefix s in (delete_result c result, s'))
