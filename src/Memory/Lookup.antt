-- ===== src/Memory/Lookup.antt =====
-- What the memory backend's blob methods change, against the map from repository, type and name
-- to contents that a client sees.
use ts_restic_server.Common.{
  ℕ, ◌≡◌, refl, ◌≢◌, ◌⊎◌, Bool, ◌&&◌, Option, none, some, arith, if◌then◌else◌, length, Bool-cases,
  Option-cases, inl, inr,
}
use ts_restic_server.Common.Text.{Bytes, eqs, eqs_iff}
use ts_restic_server.Common.Dict.{Dict, get, put, remove, get-put, get-remove}
use ts_restic_server.Common.Int64.{lt64}
use ts_restic_server.Storage.{Result, ok, err, not_found}
use ts_restic_server.Memory.{Repo, Memory, usage_after, len_or_0}
use ts_restic_server.Memory.Blobs.{
  find_blob, store_in_bucket, store_blob, delete_in_bucket, delete_blob, with_bucket,
}

-- The place of a blob: its repository, type and name.
abbrev pub same_place : Bytes → Bytes → Bytes → Bytes → Bytes → Bytes → Bool
same_place key t name key' t' name' = eqs key key' && eqs t t' && eqs name name'

-- Looking into a state in which one bucket was replaced by one that differs at `name` alone.
find_blob-with_bucket :
    (key t name : Bytes) (v : Option Bytes) (b : Memory) (r : Repo) (bucket fresh : Dict Bytes)
    (used : ℕ) (key' t' name' : Bytes)
    → get b.repos key ≡ some r
    → get r.blobs t ≡ some bucket
    → get fresh name' ≡ (if eqs name name' then v else get bucket name')
    → find_blob key' t' name' (with_bucket b key r t fresh used)
      ≡ (if same_place key t name key' t' name' then v else find_blob key' t' name' b)
unfolding find_blob
find_blob-with_bucket key t name v b r bucket fresh used key' t' name' present here change =
    ground (
      arith,
      get-put b.repos key key' (record r { blobs = put r.blobs t fresh }),
      get-put r.blobs t t' fresh,
      eqs_iff key key',
      eqs_iff t t',
    )

-- What a save may answer and do.
abbrev pub SaveEffect : Bytes → Bytes → Bytes → Bytes → Memory → Result (Unit {0}) × Memory → Type 0
SaveEffect key t name buf b after =
    ((after.0 ≡ ok tt)
      × ((key' t' name' : Bytes)
          → find_blob key' t' name' after.1 ≡ (
              if same_place key t name key' t' name' then some buf else find_blob key' t' name' b)))
    ⊎ ((after.0 ≢ ok tt) × (after.1 ≡ b))

-- What a deletion may answer and do.
abbrev pub DeleteEffect : Bytes → Bytes → Bytes → Memory → Result (Unit {0}) × Memory → Type 0
DeleteEffect key t name b after =
    ((after.0 ≡ ok tt)
      × (find_blob key t name b ≢ none)
      × ((key' t' name' : Bytes)
          → find_blob key' t' name' after.1
            ≡ (if same_place key t name key' t' name' then none else find_blob key' t' name' b)))
    ⊎ ((after.0 ≡ err not_found) × (find_blob key t name b ≡ none) × (after.1 ≡ b))

module _ (key t name : Bytes) (b : Memory) (r : Repo) (bucket : Dict Bytes)
    (present : get b.repos key ≡ some r) (here : get r.blobs t ≡ some bucket) where
  store_in_bucket_lem :
      (buf : Bytes) → SaveEffect key t name buf b (store_in_bucket key t name buf b r (some bucket))
  unfolding store_in_bucket
  store_in_bucket_lem buf =
      elim (Bool-cases
        (lt64 b.max_bytes (usage_after b.used_bytes (len_or_0 (get bucket name)) (length buf)))) [
          | inl full ↦ rw full (inr (λ e. cc, refl))
          | inr room ↦ rw room (
              inl (
                refl,
                λ key' t' name'.
                    find_blob-with_bucket key t name (some buf) b r bucket (put bucket name buf) _
                      key' t' name' present here (get-put bucket name name' buf),
              ))
        ]

  delete_in_bucket_lem : DeleteEffect key t name b (delete_in_bucket key t name b r (some bucket))
  delete_in_bucket_lem = elim (Option-cases (get bucket name)) [
    | inl absent ↦
        unfold delete_in_bucket in
        rw (absent, delete_in_bucket) (inr (refl, rw (find_here, absent), refl))
    | inr (content, found) ↦
        unfold delete_in_bucket in
        rw (found, delete_in_bucket)
          (inl (
            refl,
            rw (find_here, found) (λ e. cc),
            λ key' t' name'.
                find_blob-with_bucket key t name none b r bucket (remove bucket name) _ key' t'
                  name' present here (get-remove bucket name name'),
          ))
  ]
    where
      find_here : find_blob key t name b ≡ get bucket name
      find_here = unfold find_blob in rw (present, here)

-- A save under any name that succeeds binds its place to the body and leaves every other place alone;
-- one that fails changes nothing.
pub store_blob_lem :
    (key t name buf : Bytes) (b : Memory)
    → SaveEffect key t name buf b (store_blob key t name buf b)
store_blob_lem key t name buf b = elim (Option-cases (get b.repos key)) [
  | inl absent ↦ unfold store_blob in rw (absent, store_blob) (inr (λ e. cc, refl))
  | inr (r, present) ↦
      unfold store_blob in
      rw (present, store_blob)
        (elim (Option-cases (get r.blobs t)) [
          | inl no_bucket ↦ rw no_bucket (inr (λ e. cc, refl))
          | inr (bucket, here) ↦
              rw here (store_in_bucket_lem key t name b r bucket present here buf)
        ])
]

-- A deletion under any name empties its place and leaves every other place alone; it fails, with
-- ErrNotFound and no change, exactly where the place is empty.
pub delete_blob_lem :
    (key t name : Bytes) (b : Memory) → DeleteEffect key t name b (delete_blob key t name b)
delete_blob_lem key t name b = elim (Option-cases (get b.repos key)) [
  | inl absent ↦
      unfold delete_blob in
      rw (absent, delete_blob) (inr (refl, unfold find_blob in rw absent, refl))
  | inr (r, present) ↦
      unfold delete_blob in
      rw (present, delete_blob)
        (elim (Option-cases (get r.blobs t)) [
          | inl no_bucket ↦
              rw no_bucket (inr (refl, unfold find_blob in rw (present, no_bucket), refl))
          | inr (bucket, here) ↦ rw here (delete_in_bucket_lem key t name b r bucket present here)
        ])
]
