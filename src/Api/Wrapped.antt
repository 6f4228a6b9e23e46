-- ===== src/Api/Wrapped.antt =====
-- The handlers over a backend that wraps another: the replies are those that they give over the
-- wrapped backend alone.
use ts_restic_server.Common.{
  ℕ, ◌≡◌, refl, ap, ◌∙◌, Bool, true, false, ◌&&◌, ◌||◌, not, Option, none, some, List, [], ◌∷◌,
  if◌then◌else◌,
}
use ts_restic_server.Common.Text.{Bytes, codes, eqs}
use ts_restic_server.Storage.{
  Backend, Result, ok, err, panic, blob_locks, valid_blob_type, valid_blob_name,
}
use ts_restic_server.Storage.Wrapper.{IsWrapper, IsWrapper-trans, project}
use ts_restic_server.Instrumented
use ts_restic_server.Instrumented.{Observation}
use ts_restic_server.Stats.{Table}
use ts_restic_server.Tracked
use ts_restic_server.Tracked.Transparent
use ts_restic_server.Tracked.Transparent.{IsReturning}
use ts_restic_server.Http.{Request, Reply, Handler}
use ts_restic_server.Api.{
  ApiHandler, checked_blob, blob_type, blob_name, invalid_type, invalid_name, is_not_found,
}
use ts_restic_server.Api.Blob
use ts_restic_server.Api.Blob.{
  head_result, head_checked, range_result, get_range, whole_result, get_requested, get_checked,
  save_result, save_checked, delete_checked,
}
use ts_restic_server.Api.Range.{parse_range, clamp_length}
use ts_restic_server.Api.Config
use ts_restic_server.Api.Config.{guard_config, write_config, head_config_result}
use ts_restic_server.Api.Repo
use ts_restic_server.Api.Repo.{create_result}
use ts_restic_server.Api.Listing
use ts_restic_server.Api.Listing.{list_result}
use ts_restic_server.Api.Server.{Endpoint, handle, serve_all}

-- What the requests are answered, one after the other.
unfoldable pub replies : {S : Type 0} → ApiHandler S → List (Endpoint × Request) → S → List Reply
replies h [] s = []
replies h ((endpoint, c) ∷ requests) s =
    let (answer, s') = handle endpoint h c s in answer ∷ replies h requests s'

abbrev pub api_handler : {S : Type 0} → Backend S → Bool → ApiHandler S
api_handler b append_only = record { backend = b; append_only = append_only }

-- A test that answers alike on both sides.
project-if :
    {A S T : Type 0} (f : T → S) (test : Bool) (x x' : A × T) (y y' : A × S)
    → project f x ≡ y
    → project f x' ≡ y'
    → project f (if test then x else x') ≡ (if test then y else y')
project-if f true x x' y y' p q = p
project-if f false x x' y y' p q = q

module _ {S T : Type 0} {inner : Backend S} {outer : Backend T} {f : T → S}
    (w : IsWrapper inner outer f) (append_only : Bool) where
  abbrev pub IsSame : Handler T → Handler S → Type 0
  IsSame over under = (c : Request) (t : T) → project f (over c t) ≡ under c (f t)

  abbrev pub h_outer : ApiHandler T
  h_outer = api_handler outer append_only

  abbrev pub h_inner : ApiHandler S
  h_inner = api_handler inner append_only

  checked_blob-IsSame :
      (over : Handler T) (under : Handler S)
      → IsSame over under
      → IsSame (checked_blob over) (checked_blob under)
  unfolding checked_blob
  checked_blob-IsSame over under same c t =
      project-if f (not (valid_blob_type (blob_type c))) (invalid_type c, t) _ (invalid_type c, f t)
        _ refl
        (project-if f (not (valid_blob_name (blob_name c))) (invalid_name c, t) (over c t)
          (invalid_name c, f t) (under c (f t)) refl (same c t))

  get_range-same :
      (c : Request) (t : T) (offset count : ℕ) (size : Result ℕ)
      → get_range h_outer c t offset count size ≡ get_range h_inner c (f t) offset count size
  unfolding get_range
  get_range-same c t offset count (err e) = refl
  get_range-same c t offset count panic = refl
  get_range-same c t offset count (ok total) =
      rw
        (w.get_blob c.repo_prefix (blob_type c) (blob_name c) offset
          (clamp_length total offset count) t)
        refl

  get_requested-same :
      (c : Request) (t : T) (range : Option (ℕ × ℕ))
      → get_requested h_outer c t range ≡ get_requested h_inner c (f t) range
  unfolding get_requested
  get_requested-same c t none = rw (w.get_blob c.repo_prefix (blob_type c) (blob_name c) 0 0 t) refl
  get_requested-same c t (some (offset, count)) =
      rw (w.stat_blob c.repo_prefix (blob_type c) (blob_name c) t) (
        get_range-same c t offset count
          (inner.stat_blob c.repo_prefix (blob_type c) (blob_name c) (f t)))

  write_config-IsSame : IsSame (write_config h_outer) (write_config h_inner)
  write_config-IsSame c t =
      ap (λ x. (save_result c x.0.result, x.1)) (w.save_config c.repo_prefix c.body t)

  guard_config-same :
      (c : Request) (t : T) (size : Result ℕ)
      → project f (guard_config h_outer c t size) ≡ guard_config h_inner c (f t) size
  guard_config-same c t (ok size) = refl
  guard_config-same c t (err e) =
      project-if f (is_not_found e) _ _ _ _ (write_config-IsSame c t) refl
  guard_config-same c t panic = refl

  delete_checked-IsSame : IsSame (delete_checked h_outer) (delete_checked h_inner)
  delete_checked-IsSame c t =
      project-if f (append_only && not (eqs (blob_type c) blob_locks)) _ _ _ _ refl (
        ap (λ x. (Blob.delete_result c x.0, x.1))
          (w.delete_blob c.repo_prefix (blob_type c) (blob_name c) t))

  pub handle-IsSame : (e : Endpoint) → IsSame (handle e h_outer) (handle e h_inner)
  handle-IsSame Endpoint.create_repo c t =
      unfold Repo.create_repo in
      project-if f (not (eqs c.create_param (codes "true"))) _ _ _ _ refl
        (ap (λ x. (create_result c x.0, x.1)) (w.create_repo c.repo_prefix t))
  handle-IsSame Endpoint.delete_repo c t =
      unfold Repo.delete_repo in
      project-if f append_only _ _ _ _ refl
        (ap (λ x. (Repo.delete_result c x.0, x.1)) (w.delete_repo c.repo_prefix t))
  handle-IsSame Endpoint.head_config c t =
      unfold Config.head_config in rw (w.stat_config c.repo_prefix t) refl
  handle-IsSame Endpoint.get_config c t =
      unfold Config.get_config in rw (w.get_config c.repo_prefix t) refl
  handle-IsSame Endpoint.save_config c t =
      unfold Config.save_config in
      project-if f (append_only || c.append_only) _ _ _ _
        (rw (w.stat_config c.repo_prefix t)
          (guard_config-same c t (inner.stat_config c.repo_prefix (f t))))
        (write_config-IsSame c t)
  handle-IsSame Endpoint.list_blobs c t =
      unfold Listing.list_blobs in
      rw (w.list_blobs c.repo_prefix (blob_type c) t)
        (project-if f (not (valid_blob_type (blob_type c))) _ _ _ _ refl refl)
  handle-IsSame Endpoint.head_blob c t =
      unfold Blob.head_blob in
      checked_blob-IsSame (head_checked h_outer) (head_checked h_inner)
        (λ c t. rw (w.stat_blob c.repo_prefix (blob_type c) (blob_name c) t) refl) c t
  handle-IsSame Endpoint.get_blob c t =
      unfold Blob.get_blob in
      checked_blob-IsSame (get_checked h_outer) (get_checked h_inner)
        (λ c t. ap (λ x. (x, f t)) (get_requested-same c t (parse_range c.range_header))) c t
  handle-IsSame Endpoint.save_blob c t =
      unfold Blob.save_blob in
      checked_blob-IsSame (save_checked h_outer) (save_checked h_inner)
        (λ c t.
          ap (λ x. (save_result c x.0.result, x.1))
            (w.save_blob c.repo_prefix (blob_type c) (blob_name c) c.body t))
        c t
  handle-IsSame Endpoint.delete_blob c t =
      unfold Blob.delete_blob in
      checked_blob-IsSame (delete_checked h_outer) (delete_checked h_inner) delete_checked-IsSame c
        t

  replies-wrapped :
      (requests : List (Endpoint × Request)) (t : T)
      → (replies h_outer requests t ≡ replies h_inner requests (f t))
        × (f (serve_all h_outer requests t) ≡ serve_all h_inner requests (f t))
  unfolding replies serve_all
  replies-wrapped [] t = (refl, refl)
  replies-wrapped ((e, c) ∷ requests) t =
      let same = handle-IsSame e c t in
      let next = ap (λ x. x.1) same in
      let rest = replies-wrapped requests (handle e h_outer c t).1 in
      (
        ap (λ r. (handle e h_outer c t).0 ∷ r) (rest.0 ∙ ap (λ s. replies h_inner requests s) next)
            ∙ ap (λ r. r ∷ replies h_inner requests (handle e h_inner c (f t)).1)
                (ap (λ x. x.0) same),
        rest.1 ∙ ap (λ s. serve_all h_inner requests s) next,
      )

module _ {S : Type 0} (b : Backend S) (name : Bytes) (duration : S → ℕ) (available : Bool) where
  -- The backend as serve wraps it where metrics and statistics are enabled.
  abbrev pub observed : Backend ((S × List Observation) × Table)
  observed = Tracked.backend (Instrumented.backend b name duration) available

  pub observed-IsWrapper : IsReturning b → IsWrapper b observed (λ st. st.0.0)
  observed-IsWrapper returning = IsWrapper-trans (Instrumented.backend-IsWrapper b name duration) (
      Transparent.backend-IsWrapper (Instrumented.backend b name duration) available
        instrumented-IsReturning)
    where
      instrumented-IsReturning : IsReturning (Instrumented.backend b name duration)
      instrumented-IsReturning key kind name (s, os) =
          unfold Instrumented.stat_blob in returning key kind name s

  -- For a backend whose StatBlob does not panic: with metrics and statistics, whether these can be
  -- written or not, any sequence of requests to the API gets the replies that it gets from the backend
  -- alone, and leaves that backend in the same state.
  pub replies-observed :
      IsReturning b
      → (append_only : Bool) (requests : List (Endpoint × Request)) (s : S) (os : List Observation)
        (t : Table)
      → (replies (api_handler observed append_only) requests ((s, os), t)
          ≡ replies (api_handler b append_only) requests s)
        × ((serve_all (api_handler observed append_only) requests ((s, os), t)).0.0
            ≡ serve_all (api_handler b append_only) requests s)
  replies-observed returning append_only requests s os t =
      replies-wrapped (observed-IsWrapper returning) append_only requests ((s, os), t)
