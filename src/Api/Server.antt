-- ===== src/Api/Server.antt =====
-- The routes of internal/api/router.go, each with its handler, and requests served one after the
-- other. Which route a path matches is decided by echo: a request comes with its endpoint.
use ts_restic_server.Common.{List, [], ◌∷◌}
use ts_restic_server.Common.Text.{Bytes, codes}
use ts_restic_server.Http.{Request, Handler, method_get, method_head, method_post, method_delete}
use ts_restic_server.Api.{ApiHandler}
use ts_restic_server.Api.Blob
use ts_restic_server.Api.Config
use ts_restic_server.Api.Repo
use ts_restic_server.Api.Listing

pub data Endpoint : Type 0 where
  create_repo delete_repo head_config get_config save_config : Endpoint
  list_blobs head_blob get_blob save_blob delete_blob : Endpoint

-- The routes that RegisterRoutes adds: method, path pattern and handler.
unfoldable pub routes : List (Bytes × Bytes × Endpoint)
routes =
    (method_post, codes "/", create_repo)
    ∷ (method_delete, codes "/", delete_repo)
    ∷ (method_head, codes "/config", head_config)
    ∷ (method_get, codes "/config", get_config)
    ∷ (method_post, codes "/config", save_config)
    ∷ (method_get, codes "/:type/", list_blobs)
    ∷ (method_head, codes "/:type/:name", head_blob)
    ∷ (method_get, codes "/:type/:name", get_blob)
    ∷ (method_post, codes "/:type/:name", save_blob)
    ∷ (method_delete, codes "/:type/:name", delete_blob)
    ∷ []

-- The handler of an endpoint.
abbrev pub handle : {S : Type 0} → Endpoint → ApiHandler S → Handler S
handle create_repo = Repo.create_repo
handle delete_repo = Repo.delete_repo
handle head_config = Config.head_config
handle get_config = Config.get_config
handle save_config = Config.save_config
handle list_blobs = Listing.list_blobs
handle head_blob = Blob.head_blob
handle get_blob = Blob.get_blob
handle save_blob = Blob.save_blob
handle delete_blob = Blob.delete_blob

-- The state after a sequence of requests, whatever the replies.
unfoldable pub serve_all : {S : Type 0} → ApiHandler S → List (Endpoint × Request) → S → S
serve_all h [] s = s
serve_all h ((endpoint, c) ∷ requests) s = serve_all h requests (handle endpoint h c s).1
