-- ===== src/Api/Config.antt =====
-- internal/api/config_handler.go: the handlers of the repository config.
use ts_restic_server.Common.{ℕ, ◌||◌, [], ◌∷◌, if◌then◌else◌}
use ts_restic_server.Common.Text.{codes}
use ts_restic_server.Storage.{Result, ok, err, panic}
use ts_restic_server.Http.{Request, number, no_content, Reply, reply, panicked, Handler}
use ts_restic_server.Api.{ApiHandler, api_error, internal_error, head_error, is_not_found}
use ts_restic_server.Api.Blob.{whole_result, save_result}

abbrev pub head_config_result : Result ℕ → Reply
head_config_result (ok size) = reply (record {
  status = 200;
  headers = (codes "Content-Length", number size) ∷ [];
  body = no_content;
})
head_config_result (err e) = head_error e
head_config_result panic = panicked

-- HeadConfig
unfoldable pub head_config : {S : Type 0} → ApiHandler S → Handler S
head_config h c s = (head_config_result (h.backend.stat_config c.repo_prefix s), s)

-- GetConfig
unfoldable pub get_config : {S : Type 0} → ApiHandler S → Handler S
get_config h c s = (whole_result c (h.backend.get_config c.repo_prefix s), s)

-- the end of SaveConfig
abbrev pub write_config : {S : Type 0} → ApiHandler S → Handler S
write_config h c s =
    let (saved, s') = h.backend.save_config c.repo_prefix c.body s in
    (save_result c saved.result, s')

-- SaveConfig for an append-only client, after StatConfig
abbrev pub guard_config : {S : Type 0} → ApiHandler S → Request → S → Result ℕ → Reply × S
guard_config h c s (ok size) =
    (api_error c 403 (codes "forbidden") (codes "append-only mode: the config already exists"), s)
guard_config h c s (err e) = if is_not_found e then write_config h c s else (internal_error c, s)
guard_config h c s panic = (panicked, s)

-- SaveConfig
unfoldable pub save_config : {S : Type 0} → ApiHandler S → Handler S
save_config h c s =
    if h.append_only || c.append_only
    then guard_config h c s (h.backend.stat_config c.repo_prefix s)
    else write_config h c s
