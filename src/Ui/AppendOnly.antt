-- ===== src/Ui/AppendOnly.antt =====
-- Append-only mode with the web interface beside the API, over the memory backend as serve wraps it.
use ts_restic_server.Common.{
  ◌≡◌, ◌≢◌, ◌∙◌, sym, ap, subst, inl, inr, true, none, some, List, [], ◌∷◌,
}
use ts_restic_server.Common.Text.{Bytes, join}
use ts_restic_server.Storage.{Backend, blob_locks}
use ts_restic_server.Storage.Wrapper.{IsWrapper}
use ts_restic_server.Http.{Request}
use ts_restic_server.Memory.{Memory}
use ts_restic_server.Memory.Blobs
use ts_restic_server.Memory.Blobs.{find_blob}
use ts_restic_server.Memory.Kept.{config_of}
use ts_restic_server.Api.AppendOnly.{
  Keeps, Keeps-refl, Keeps-trans, Keeps-delete_lock, handle-Keeps,
}
use ts_restic_server.Api.Server.{Endpoint, handle}
use ts_restic_server.Api.Wrapped.{api_handler, handle-IsSame}
use ts_restic_server.Middleware.RepoPrefix.{slash}
use ts_restic_server.Ui.{UiHandler, UiRequest}
use ts_restic_server.Ui.Routes.{UiEndpoint, serve_ui}
use ts_restic_server.Ui.Guarded.{serve_ui-guarded, IsLockDeletion}

-- A request to the API or to the web interface, as its route decides.
pub data AnyRequest : Type 0 where
  to_api : Endpoint → Request → AnyRequest
  to_ui : UiEndpoint → UiRequest → AnyRequest

module _ {T : Type 0} (b : Backend T) (h : UiHandler T) (user pass : Bytes) where
  -- The state after a request, where the API rejects deletions.
  abbrev pub after_request : AnyRequest → T → T
  after_request (to_api e c) t = (handle e (api_handler b true) c t).1
  after_request (to_ui e c) t = (serve_ui h user pass e c t).1

  unfoldable pub after_requests : List AnyRequest → T → T
  after_requests [] t = t
  after_requests (r ∷ rs) t = after_requests rs (after_request r t)

module _ {T : Type 0} {b : Backend T} {inner_state : T → Memory}
    (w : IsWrapper Blobs.backend b inner_state) (h : UiHandler T) (shared : h.backend ≡ some b)
    (user pass : Bytes) where
  Keeps-lock_deletion :
      (c : UiRequest) (t t' : T) → IsLockDeletion h c t t' → Keeps (inner_state t) (inner_state t')
  Keeps-lock_deletion c t t' deletion =
      let present = deletion.backend_is in
      let same : deletion.deleter ≡ b = cc in
      let prefix = join slash deletion.segments in
      let effect =
        ap inner_state deletion.effect
        ∙ ap (λ x. inner_state (x.delete_blob prefix blob_locks c.lock_name t).1) same
        ∙ ap (λ x. x.1) (w.delete_blob prefix blob_locks c.lock_name t) in
      subst (λ m. Keeps (inner_state t) m) (sym effect)
        (Keeps-delete_lock prefix c.lock_name (inner_state t))

  Keeps-after_request :
      (r : AnyRequest) (t : T)
      → Keeps (inner_state t) (inner_state (after_request b h user pass r t))
  Keeps-after_request (to_api e c) t =
      subst (λ m. Keeps (inner_state t) m) (sym (ap (λ x. x.1) (handle-IsSame w true e c t)))
        (handle-Keeps e c (inner_state t))
  Keeps-after_request (to_ui e c) t = elim (serve_ui-guarded h user pass e c t) [
    | inl (closed, wrong, same) ↦ of_same (ap (λ x. x.1) same)
    | inr (allowed, run, inl same) ↦ of_same same
    | inr (allowed, run, inr (form, deletion)) ↦ Keeps-lock_deletion c t _ deletion
  ]
    where
      of_same : {t' : T} → t' ≡ t → Keeps (inner_state t) (inner_state t')
      of_same same =
          subst (λ x. Keeps (inner_state t) (inner_state x)) (sym same) (Keeps-refl (inner_state t))

  Keeps-after_requests :
      (rs : List AnyRequest) (t : T)
      → Keeps (inner_state t) (inner_state (after_requests b h user pass rs t))
  unfolding after_requests
  Keeps-after_requests [] t = Keeps-refl (inner_state t)
  Keeps-after_requests (r ∷ rs) t =
      Keeps-trans (Keeps-after_request r t)
        (Keeps-after_requests rs (after_request b h user pass r t))

  -- In append-only mode no sequence of requests to the API and to the web interface, whatever they ask
  -- for, removes a blob that is not a lock from the memory backend: over that backend itself or over
  -- one that wraps it, where the API and the web interface share it.
  pub after_requests-keeps_blobs :
      (rs : List AnyRequest) (t : T) (key kind name : Bytes)
      → kind ≢ blob_locks
      → find_blob key kind name (inner_state t) ≢ none
      → find_blob key kind name (inner_state (after_requests b h user pass rs t)) ≢ none
  after_requests-keeps_blobs rs t = (Keeps-after_requests rs t).blobs

  -- In append-only mode no sequence of requests to the API and to the web interface changes a config
  -- that has been set in the memory backend: over that backend itself or over one that wraps it, where
  -- the API and the web interface share it.
  pub after_requests-keeps_config :
      (rs : List AnyRequest) (t : T) (key content : Bytes)
      → config_of key (inner_state t) ≡ some content
      → config_of key (inner_state (after_requests b h user pass rs t)) ≡ some content
  after_requests-keeps_config rs t = (Keeps-after_requests rs t).configs
