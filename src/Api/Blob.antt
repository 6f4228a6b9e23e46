-- ===== src/Api/Blob.antt =====
-- internal/api/blob.go: the handlers of single blobs.
use ts_restic_server.Common.{ℕ, ◌&&◌, not, Option, none, some, [], ◌∷◌, if◌then◌else◌}
use ts_restic_server.Common.Text.{Bytes, codes, eqs}
use ts_restic_server.Common.Int64.{add64, sub64}
use ts_restic_server.Storage.{Result, ok, err, panic, blob_locks}
use ts_restic_server.Http.{
  Request, text, number, byte_range, unsatisfied_range, stream, no_content, Reply, reply, panicked,
  Handler,
}
use ts_restic_server.Api.{
  ApiHandler, api_error, empty_reply, not_found_or_internal, head_error, save_error, blob_type,
  blob_name, checked_blob,
}
use ts_restic_server.Api.Range.{parse_range, past_end, clamp_length}

abbrev pub octet_stream : ℕ → Bytes → Reply
octet_stream status content =
    reply (record { status = status; headers = []; body = stream content })

-- HeadBlob after its checks
abbrev pub head_result : Result ℕ → Reply
head_result (ok size) = reply (record {
  status = 200;
  headers =
      (codes "Content-Length", number size) ∷ (codes "Accept-Ranges", text (codes "bytes")) ∷ [];
  body = no_content;
})
head_result (err e) = head_error e
head_result panic = panicked

abbrev pub head_checked : {S : Type 0} → ApiHandler S → Handler S
head_checked h c s =
    (head_result (h.backend.stat_blob c.repo_prefix (blob_type c) (blob_name c) s), s)

-- HeadBlob
unfoldable pub head_blob : {S : Type 0} → ApiHandler S → Handler S
unfolding checked_blob
head_blob h = checked_blob (head_checked h)

-- GetBlob, when a range is requested: the reply to the backend's answer for the clamped range
abbrev pub range_result : Request → ℕ → ℕ → ℕ → Result Bytes → Reply
range_result c total_size offset count (ok content) = reply (record {
  status = 206;
  headers =
      (codes "Content-Range", byte_range offset (sub64 (add64 offset count) 1) total_size)
      ∷ (codes "Content-Length", number count)
      ∷ (codes "Accept-Ranges", text (codes "bytes"))
      ∷ [];
  body = stream content;
})
range_result c total_size offset count (err e) = not_found_or_internal c e
range_result c total_size offset count panic = panicked

-- a reply with one more header
abbrev pub unsatisfiable : Request → ℕ → Reply
unsatisfiable c total_size = elim (api_error c 416 (codes "range not satisfiable") []) [
  | reply r ↦
      reply
        (record r { headers = (codes "Content-Range", unsatisfied_range total_size) ∷ r.headers })
  | panicked ↦ panicked
]

-- GetBlob after the size is known
unfoldable pub get_range : {S : Type 0} → ApiHandler S → Request → S → ℕ → ℕ → Result ℕ → Reply
get_range h c s offset count (err e) = not_found_or_internal c e
get_range h c s offset count panic = panicked
get_range h c s offset count (ok total_size) =
    if past_end offset total_size
    then unsatisfiable c total_size
    else (let asked = clamp_length total_size offset count in
        range_result c total_size offset asked
          (h.backend.get_blob c.repo_prefix (blob_type c) (blob_name c) offset asked s))

abbrev pub whole_result : Request → Result Bytes → Reply
whole_result c (ok content) = octet_stream 200 content
whole_result c (err e) = not_found_or_internal c e
whole_result c panic = panicked

unfoldable pub get_requested : {S : Type 0} → ApiHandler S → Request → S → Option (ℕ × ℕ) → Reply
get_requested h c s none =
    whole_result c (h.backend.get_blob c.repo_prefix (blob_type c) (blob_name c) 0 0 s)
get_requested h c s (some (offset, count)) =
    get_range h c s offset count (h.backend.stat_blob c.repo_prefix (blob_type c) (blob_name c) s)

abbrev pub get_checked : {S : Type 0} → ApiHandler S → Handler S
get_checked h c s = (get_requested h c s (parse_range c.range_header), s)

-- GetBlob
unfoldable pub get_blob : {S : Type 0} → ApiHandler S → Handler S
unfolding checked_blob
get_blob h = checked_blob (get_checked h)

-- the reply to a save
abbrev pub save_result : Request → Result (Unit {0}) → Reply
save_result c (ok _) = empty_reply 200
save_result c (err e) = save_error c e
save_result c panic = panicked

-- SaveBlob after its checks
abbrev pub save_checked : {S : Type 0} → ApiHandler S → Handler S
save_checked h c s =
    let (saved, s') = h.backend.save_blob c.repo_prefix (blob_type c) (blob_name c) c.body s in
    (save_result c saved.result, s')

-- SaveBlob
unfoldable pub save_blob : {S : Type 0} → ApiHandler S → Handler S
unfolding checked_blob
save_blob h = checked_blob (save_checked h)

abbrev pub delete_result : Request → Result (Unit {0}) → Reply
delete_result c (ok _) = empty_reply 200
delete_result c (err e) = not_found_or_internal c e
delete_result c panic = panicked

-- DeleteBlob after its checks; append-only mode admits the deletion of locks only
abbrev pub delete_checked : {S : Type 0} → ApiHandler S → Handler S
delete_checked h c s =
    if h.append_only && not (eqs (blob_type c) blob_locks)
    then (
      api_error c 403 (codes "forbidden") (codes "append-only mode: deletion is not allowed"),
      s,
    )
    else (let (result, s') = h.backend.delete_blob c.repo_prefix (blob_type c) (blob_name c) s in
        (delete_result c result, s'))

-- DeleteBlob
unfoldable pub delete_blob : {S : Type 0} → ApiHandler S → Handler S
unfolding checked_blob
delete_blob h = checked_blob (delete_checked h)
