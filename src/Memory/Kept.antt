-- ===== src/Memory/Kept.antt =====
-- What the calls of the memory backend keep: a config that is set, and blobs that are stored.
use ts_restic_server.Common.{
  ℕ, ◌≡◌, refl, inl, inr, false, Option, none, some, List, [], ◌∷◌, arith, length, Bool-cases,
  Option-cases,
}
use ts_restic_server.Common.Text.{Bytes, eqs, eqs_iff}
use ts_restic_server.Common.Dict.{Dict, get, put, remove, get-put}
use ts_restic_server.Common.Int64.{lt64, sub64}
use ts_restic_server.Storage.{valid_blob_types}
use ts_restic_server.Memory.{
  Repo, Memory, create_repo, empty_buckets, fresh_repo, repo_config, store_config, usage_after,
  len_or_0,
}
use ts_restic_server.Memory.Blobs.{
  find_blob, store_in_bucket, store_blob, delete_in_bucket, delete_blob, with_bucket, bucket_blob,
}

-- The config of a repository, `none` if there is no repository or no config.
abbrev pub config_of : Bytes → Memory → Option Bytes
config_of key b = repo_config (get b.repos key)

config_of-put :
    (key : Bytes) (used : ℕ) (b : Memory) (r r' : Repo)
    → repo_config (get b.repos key) ≡ r'.config
    → (j : Bytes)
    → config_of j (record b { used_bytes = used; repos = put b.repos key r' }) ≡ config_of j b
config_of-put key used b r r' same j = ground (arith, get-put b.repos key j r', eqs_iff key j)

pub config_of-create_repo :
    (key : Bytes) (b : Memory) (j : Bytes) → config_of j (create_repo key b).1 ≡ config_of j b
config_of-create_repo key b j = elim (Option-cases (get b.repos key)) [
  | inl absent ↦
      unfold create_repo in
      rw (absent, create_repo)
        (config_of-put key b.used_bytes b fresh_repo fresh_repo (rw absent refl) j)
  | inr (r, present) ↦ unfold create_repo in rw (present, create_repo)
]

-- The buckets of a new repository are empty.
empty_buckets-none :
    (ts : List Bytes) (t name : Bytes) → bucket_blob name (get (empty_buckets ts) t) ≡ none
unfolding get
empty_buckets-none [] t name = refl
empty_buckets-none (u ∷ ts) t name = ground (arith, empty_buckets-none ts t name)

find_blob-fresh : (t name : Bytes) → bucket_blob name (get fresh_repo.blobs t) ≡ none
find_blob-fresh t name = empty_buckets-none valid_blob_types t name

pub find_blob-create_repo :
    (key : Bytes) (b : Memory) (j t name : Bytes)
    → find_blob j t name (create_repo key b).1 ≡ find_blob j t name b
find_blob-create_repo key b j t name = elim (Option-cases (get b.repos key)) [
  | inl absent ↦
      unfold create_repo find_blob in
      rw (absent, create_repo)
        (ground (arith, get-put b.repos key j fresh_repo, eqs_iff key j, find_blob-fresh t name))
  | inr (r, present) ↦ unfold create_repo in rw (present, create_repo)
]

-- A save of the config leaves the blobs alone, and the configs of other repositories.
pub find_blob-store_config :
    (key buf : Bytes) (b : Memory) (j t name : Bytes)
    → find_blob j t name (store_config key buf b).1 ≡ find_blob j t name b
find_blob-store_config key buf b j t name = elim (Option-cases (get b.repos key)) [
  | inl absent ↦ unfold store_config in rw (absent, store_config)
  | inr (r, present) ↦
      unfold store_config in
      rw (present, store_config)
        (elim (Bool-cases
          (lt64 b.max_bytes (usage_after b.used_bytes (len_or_0 r.config) (length buf)))) [
            | inl full ↦ rw full
            | inr room ↦ rw room (
                unfold find_blob in
                ground
                  (arith, get-put b.repos key j (record r { config = some buf }), eqs_iff key j))
          ])
]

pub config_of-store_config :
    (key buf : Bytes) (b : Memory) (j : Bytes)
    → eqs key j ≡ false
    → config_of j (store_config key buf b).1 ≡ config_of j b
config_of-store_config key buf b j other = elim (Option-cases (get b.repos key)) [
  | inl absent ↦ unfold store_config in rw (absent, store_config)
  | inr (r, present) ↦
      unfold store_config in
      rw (present, store_config)
        (elim (Bool-cases
          (lt64 b.max_bytes (usage_after b.used_bytes (len_or_0 r.config) (length buf)))) [
            | inl full ↦ rw full
            | inr room ↦
                rw room (ground (arith, get-put b.repos key j (record r { config = some buf })))
          ])
]

config_of-with_bucket :
    (key : Bytes) (b : Memory) (r : Repo) (t : Bytes) (bucket : Dict Bytes) (used : ℕ) (j : Bytes)
    → get b.repos key ≡ some r
    → config_of j (with_bucket b key r t bucket used) ≡ config_of j b
config_of-with_bucket key b r t bucket used j present =
    config_of-put key used b r (record r { blobs = put r.blobs t bucket }) (rw present refl) j

pub config_of-store_blob :
    (key t name buf : Bytes) (b : Memory) (j : Bytes)
    → config_of j (store_blob key t name buf b).1 ≡ config_of j b
config_of-store_blob key t name buf b j = elim (Option-cases (get b.repos key)) [
  | inl absent ↦ unfold store_blob in rw (absent, store_blob)
  | inr (r, present) ↦ unfold store_blob in rw (present, store_blob) (stored r present)
]
  where
    stored :
        (r : Repo)
        → get b.repos key ≡ some r
        → config_of j (store_in_bucket key t name buf b r (get r.blobs t)).1 ≡ config_of j b
    stored r present = elim (Option-cases (get r.blobs t)) [
      | inl no_bucket ↦ rw no_bucket (unfold store_in_bucket in refl)
      | inr (bucket, here) ↦ rw here (
          unfold store_in_bucket in
          ground (
            arith,
            config_of-with_bucket key b r t (put bucket name buf)
                (usage_after b.used_bytes (len_or_0 (get bucket name)) (length buf)) j present,
          ))
    ]

pub config_of-delete_blob :
    (key t name : Bytes) (b : Memory) (j : Bytes)
    → config_of j (delete_blob key t name b).1 ≡ config_of j b
config_of-delete_blob key t name b j = elim (Option-cases (get b.repos key)) [
  | inl absent ↦ unfold delete_blob in rw (absent, delete_blob)
  | inr (r, present) ↦ unfold delete_blob in rw (present, delete_blob) (deleted r present)
]
  where
    deleted :
        (r : Repo)
        → get b.repos key ≡ some r
        → config_of j (delete_in_bucket key t name b r (get r.blobs t)).1 ≡ config_of j b
    deleted r present = elim (Option-cases (get r.blobs t)) [
      | inl no_bucket ↦ rw no_bucket (unfold delete_in_bucket in refl)
      | inr (bucket, here) ↦ rw here (elim (Option-cases (get bucket name)) [
        | inl nothing ↦ unfold delete_in_bucket in rw (nothing, delete_in_bucket)
        | inr (content, found) ↦
            unfold delete_in_bucket in
            rw (found, delete_in_bucket)
              (config_of-with_bucket key b r t (remove bucket name)
                (sub64 b.used_bytes (length content)) j present)
      ])
    ]
