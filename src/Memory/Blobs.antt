-- ===== src/Memory/Blobs.antt =====
-- The blob methods of internal/storage/memory/memory.go, and the backend as a storage.Backend.
use ts_restic_server.Common.{
  ℕ, Option, none, some, List, [], ◌∷◌, length, take, drop, if◌then◌else◌, not, ◌&&◌, ◌||◌, ◌-◌,
}
use ts_restic_server.Common.Text.{Bytes}
use ts_restic_server.Common.Dict.{Dict, get, put, remove}
use ts_restic_server.Common.Int64.{add64, sub64, lt64}
use ts_restic_server.Storage.{
  Result, ok, err, panic, not_found, quota_exceeded, repo_not_found, Blob, Reader, Saved, Backend,
}
use ts_restic_server.Memory.{
  Repo, Memory, create_repo, delete_repo, stat_config, get_config, save_config, len_or_0,
  usage_after, after_read,
}

-- the bucket of a blob type in a repository
abbrev pub repo_bucket : Bytes → Option Repo → Option (Dict Bytes)
repo_bucket t none = none
repo_bucket t (some r) = get r.blobs t

abbrev pub bucket_blob : Bytes → Option (Dict Bytes) → Option Bytes
bucket_blob name none = none
bucket_blob name (some bucket) = get bucket name

-- the three lookups of StatBlob and GetBlob, each of which may answer ErrNotFound
unfoldable pub find_blob : Bytes → Bytes → Bytes → Memory → Option Bytes
find_blob key t name b = bucket_blob name (repo_bucket t (get b.repos key))

unfoldable pub stat_blob : Bytes → Bytes → Bytes → Memory → Result ℕ
unfolding find_blob
stat_blob key t name b = elim (find_blob key t name b) [
  | none ↦ err not_found
  | some content ↦ ok (length content)
]

-- content[offset:end], which panics where the bounds are out of order or negative. (Go admits an
-- end up to the capacity; GetBlob passes none above the length.)
unfoldable pub slice : ℕ → ℕ → Bytes → Result Bytes
unfolding lt64
slice offset end content =
    if lt64 offset 0 || lt64 end offset || lt64 (length content) end
    then panic
    else ok (take (end - offset) (drop offset content))

-- the end of the slice that GetBlob returns
unfoldable pub slice_end : ℕ → ℕ → ℕ → ℕ
unfolding add64 lt64
slice_end size offset count =
    if lt64 0 count && lt64 (add64 offset count) size then add64 offset count else size

unfoldable pub read_blob : Bytes → ℕ → ℕ → Result Bytes
read_blob content offset count =
    if not (lt64 offset (length content))
    then ok []
    else slice offset (slice_end (length content) offset count) content

unfoldable pub get_blob : Bytes → Bytes → Bytes → ℕ → ℕ → Memory → Result Bytes
unfolding find_blob
get_blob key t name offset count b = elim (find_blob key t name b) [
  | none ↦ err not_found
  | some content ↦ read_blob content offset count
]

-- what SaveBlob and DeleteBlob write back into the repository that they found
abbrev pub with_bucket : Memory → Bytes → Repo → Bytes → Dict Bytes → ℕ → Memory
with_bucket b key r t bucket used = record b {
  used_bytes = used;
  repos = put b.repos key (record r { blobs = put r.blobs t bucket });
}

-- SaveBlob in its bucket, after the body has been read
unfoldable pub store_in_bucket :
    Bytes → Bytes → Bytes → Bytes → Memory → Repo → Option (Dict Bytes) → Result (Unit {0}) × Memory
unfolding add64 sub64 lt64
store_in_bucket key t name buf b r none = (err not_found, b)
store_in_bucket key t name buf b r (some bucket) =
    let after = usage_after b.used_bytes (len_or_0 (get bucket name)) (length buf) in
    if lt64 b.max_bytes after
    then (err quota_exceeded, b)
    else (ok tt, with_bucket b key r t (put bucket name buf) after)

unfoldable pub store_blob : Bytes → Bytes → Bytes → Bytes → Memory → Result (Unit {0}) × Memory
unfolding store_in_bucket
store_blob key t name buf b = elim (get b.repos key) [
  | none ↦ (err repo_not_found, b)
  | some r ↦ store_in_bucket key t name buf b r (get r.blobs t)
]

unfoldable pub save_blob : Bytes → Bytes → Bytes → Reader → Memory → Saved × Memory
unfolding store_blob
save_blob key t name body b = after_read body (store_blob key t name) b

-- DeleteBlob in its bucket
unfoldable pub delete_in_bucket :
    Bytes → Bytes → Bytes → Memory → Repo → Option (Dict Bytes) → Result (Unit {0}) × Memory
unfolding sub64
delete_in_bucket key t name b r none = (err not_found, b)
delete_in_bucket key t name b r (some bucket) = elim (get bucket name) [
  | none ↦ (err not_found, b)
  | some content ↦
      (ok tt, with_bucket b key r t (remove bucket name) (sub64 b.used_bytes (length content)))
]

unfoldable pub delete_blob : Bytes → Bytes → Bytes → Memory → Result (Unit {0}) × Memory
unfolding delete_in_bucket
delete_blob key t name b = elim (get b.repos key) [
  | none ↦ (err not_found, b)
  | some r ↦ delete_in_bucket key t name b r (get r.blobs t)
]

-- the loop of ListBlobs; its order is Go's map order, here the order of the association list
abbrev pub list_bucket : Dict Bytes → List Blob
list_bucket [] = []
list_bucket ((name, content) ∷ bucket) =
    (record { name = name; size = length content }) ∷ list_bucket bucket

unfoldable pub list_blobs : Bytes → Bytes → Memory → Result (List Blob)
list_blobs key t b = elim (repo_bucket t (get b.repos key)) [
  | none ↦ ok []
  | some bucket ↦ ok (list_bucket bucket)
]

-- The backend as a storage.Backend.
abbrev pub backend : Backend Memory
backend = record {
  create_repo = create_repo;
  delete_repo = delete_repo;
  stat_config = stat_config;
  get_config = get_config;
  save_config = save_config;
  stat_blob = stat_blob;
  get_blob = get_blob;
  save_blob = save_blob;
  delete_blob = delete_blob;
  list_blobs = list_blobs;
}
