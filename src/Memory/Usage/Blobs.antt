-- ===== src/Memory/Usage/Blobs.antt =====
-- The blob methods of the memory backend keep the quota.
use ts_restic_server.Common.{◌+◌, ◌<◌, ◌≡◌, some, arith, length, Bool-cases, Option-cases, inl, inr}
use ts_restic_server.Common.Text.{Bytes}
use ts_restic_server.Common.Dict.{
  Dict, get, put, remove, IsUnique, total-put, total-remove, size-le-total, put-IsUnique,
  remove-IsUnique, get-AllValues,
}
use ts_restic_server.Common.Int64.{lt64, half, sub64_small}
use ts_restic_server.Memory.{Repo, Memory, len_or_0, usage_after}
use ts_restic_server.Memory.Blobs.{store_in_bucket, store_blob, delete_in_bucket, delete_blob}
use ts_restic_server.Memory.Usage.{
  IsSound, usage_after_lem, names_of, with_bucket-IsSound, bucket_size-le,
}

module _ (key t name : Bytes) (b : Memory) (s : IsSound b) (r : Repo)
    (present : get b.repos key ≡ some r) (bucket : Dict Bytes)
    (here : get r.blobs t ≡ some bucket) where
  bucket-IsUnique : IsUnique bucket
  bucket-IsUnique = get-AllValues (λ c. IsUnique c) r.blobs t (names_of key b s r present).1 here

  store_here :
      (buf : Bytes)
      → b.max_bytes + length buf < half
      → IsSound (store_in_bucket key t name buf b r (some bucket)).1
  unfolding store_in_bucket
  store_here buf h =
      let old = size-le-total length bucket name in
      let bound = bucket_size-le key b s r present t bucket here in
      let after = usage_after b.used_bytes (len_or_0 (get bucket name)) (length buf) in
      let (value, test) =
        usage_after_lem b.used_bytes (len_or_0 (get bucket name)) (length buf) b.max_bytes
          (omega arith) s.within h in
      elim (Bool-cases (lt64 b.max_bytes after)) [
        | inl full ↦ rw full s
        | inr room ↦ rw room (
            with_bucket-IsSound key b s r present t bucket (put bucket name buf) after here
              (put-IsUnique bucket name buf bucket-IsUnique)
              (omega (arith, total-put length bucket name buf bucket-IsUnique)) (ground arith))
      ]

  delete_here : IsSound (delete_in_bucket key t name b r (some bucket)).1
  delete_here = elim (Option-cases (get bucket name)) [
    | inl absent ↦ unfold delete_in_bucket in rw (absent, delete_in_bucket) s
    | inr (content, found) ↦
        let bound = bucket_size-le key b s r present t bucket here in
        let old = rw found at (size-le-total length bucket name) in
        let removed = rw found at (total-remove length bucket name bucket-IsUnique) in
        let limit = s.limit in
        let value =
          sub64_small b.used_bytes (length content) (omega (arith, s.within)) (omega arith) in
        unfold delete_in_bucket in
        rw (found, delete_in_bucket, value)
          (with_bucket-IsSound key b s r present t bucket (remove bucket name) _ here
            (remove-IsUnique bucket name bucket-IsUnique) (omega arith) (omega (arith, s.within)))
  ]

pub store_blob-IsSound :
    (key t name buf : Bytes) (b : Memory)
    → b.max_bytes + length buf < half
    → IsSound b
    → IsSound (store_blob key t name buf b).1
store_blob-IsSound key t name buf b h s = elim (Option-cases (get b.repos key)) [
  | inl absent ↦ unfold store_blob in rw (absent, store_blob) s
  | inr (r, present) ↦
      unfold store_blob in
      rw (present, store_blob)
        (elim (Option-cases (get r.blobs t)) [
          | inl no_bucket ↦ rw no_bucket (unfold store_in_bucket in s)
          | inr (bucket, here) ↦ rw here (store_here key t name b s r present bucket here buf h)
        ])
]

pub delete_blob-IsSound :
    (key t name : Bytes) (b : Memory) → IsSound b → IsSound (delete_blob key t name b).1
delete_blob-IsSound key t name b s = elim (Option-cases (get b.repos key)) [
  | inl absent ↦ unfold delete_blob in rw (absent, delete_blob) s
  | inr (r, present) ↦
      unfold delete_blob in
      rw (present, delete_blob)
        (elim (Option-cases (get r.blobs t)) [
          | inl no_bucket ↦ rw no_bucket (unfold delete_in_bucket in s)
          | inr (bucket, here) ↦ rw here (delete_here key t name b s r present bucket here)
        ])
]
