-- ===== src/Memory.antt =====
-- internal/storage/memory/memory.go: the in-memory backend with its byte quota. Byte counts are
-- int64; each method runs under the backend's mutex, so a method is one step of the state.
pub mod Blobs
pub mod Usage
pub mod Lookup
pub mod Kept
pub mod Reads
pub mod Runs
use ts_restic_server.Common.{
  ℕ, ◌≡◌, Bool, true, false, Option, none, some, List, [], ◌∷◌, length, take, drop, ltb, leb,
  if◌then◌else◌, not, ◌&&◌, ◌||◌, ◌-◌, map, suc, ◌+◌,
}
use ts_restic_server.Common.Text.{Bytes}
use ts_restic_server.Common.Dict.{Dict, size_of, get, put, remove}
use ts_restic_server.Common.Int64.{add64, sub64, lt64, half}
use ts_restic_server.Storage.{
  Result, ok, err, panic, not_found, quota_exceeded, repo_not_found, repo_exists, read_failed,
  valid_blob_types, Blob, Reader, read_all, Saved, Backend,
}

-- A nil config is `none`.
pub record Repo : Type 0 where
  pub config : Option Bytes
  pub blobs : Dict (Dict Bytes)

pub record Memory : Type 0 where
  pub max_bytes : ℕ
  pub used_bytes : ℕ
  pub repos : Dict Repo

-- New
unfoldable pub new : ℕ → Memory
new max_bytes = record { max_bytes = max_bytes; used_bytes = 0; repos = [] }

-- the loop of CreateRepo over the blob types
abbrev pub empty_buckets : List Bytes → Dict (Dict Bytes)
empty_buckets [] = []
empty_buckets (t ∷ ts) = (t, []) ∷ empty_buckets ts

abbrev pub fresh_repo : Repo
fresh_repo = record { config = none; blobs = empty_buckets valid_blob_types }

unfoldable pub create_repo : Bytes → Memory → Result (Unit {0}) × Memory
create_repo key b = elim (get b.repos key) [
  | some r ↦ (err repo_exists, b)
  | none ↦ (ok tt, record b { repos = put b.repos key fresh_repo })
]

-- the loops of DeleteRepo: each bucket, and in it each blob
unfoldable pub reclaim_bucket : Dict Bytes → ℕ → ℕ
unfolding sub64
reclaim_bucket [] used = used
reclaim_bucket ((name, content) ∷ bucket) used = reclaim_bucket bucket (sub64 used (length content))

unfoldable pub reclaim_buckets : Dict (Dict Bytes) → ℕ → ℕ
unfolding reclaim_bucket
reclaim_buckets [] used = used
reclaim_buckets ((t, bucket) ∷ blobs) used = reclaim_buckets blobs (reclaim_bucket bucket used)

abbrev pub reclaim_config : Option Bytes → ℕ → ℕ
reclaim_config none used = used
reclaim_config (some c) used = sub64 used (length c)

unfoldable pub delete_repo : Bytes → Memory → Result (Unit {0}) × Memory
unfolding reclaim_buckets sub64
delete_repo key b = elim (get b.repos key) [
  | none ↦ (err repo_not_found, b)
  | some r ↦ (
    ok tt,
    record b {
      used_bytes = reclaim_buckets r.blobs (reclaim_config r.config b.used_bytes);
      repos = remove b.repos key;
    },
  )
]

abbrev pub repo_config : Option Repo → Option Bytes
repo_config none = none
repo_config (some r) = r.config

unfoldable pub stat_config : Bytes → Memory → Result ℕ
stat_config key b = elim (repo_config (get b.repos key)) [
  | none ↦ err not_found
  | some c ↦ ok (length c)
]

unfoldable pub get_config : Bytes → Memory → Result Bytes
get_config key b = elim (repo_config (get b.repos key)) [ none ↦ err not_found | some c ↦ ok c ]

-- len of a slice that may be nil
abbrev pub len_or_0 : Option Bytes → ℕ
len_or_0 c = size_of length c

-- usedBytes - oldSize + newSize
abbrev pub usage_after : ℕ → ℕ → ℕ → ℕ
usage_after used old_size new_size = add64 (sub64 used old_size) new_size

-- SaveConfig after the body has been read
unfoldable pub store_config : Bytes → Bytes → Memory → Result (Unit {0}) × Memory
unfolding add64 sub64 lt64
store_config key buf b = elim (get b.repos key) [
  | none ↦ (err repo_not_found, b)
  | some r ↦
      let after = usage_after b.used_bytes (len_or_0 r.config) (length buf) in
      if lt64 b.max_bytes after then (err quota_exceeded, b) else (
        ok tt,
        record b { used_bytes = after; repos = put b.repos key (record r { config = some buf }) },
      )
]

abbrev pub after_read :
    Reader → (Bytes → Memory → Result (Unit {0}) × Memory) → Memory → Saved × Memory
after_read r store b =
    if r.fails
    then (record { result = err read_failed; read = length r.content }, b)
    else (record { result = (store r.content b).0; read = length r.content }, (store r.content b).1)

unfoldable pub save_config : Bytes → Reader → Memory → Saved × Memory
unfolding store_config
save_config key body b = after_read body (store_config key) b
