-- ===== src/Memory/Usage.antt =====
-- The quota of the memory backend: usedBytes is the number of bytes that it stores, and stays
-- within maxBytes.
pub mod Blobs
use ts_restic_server.Common.{
  ℕ, zero, suc, ◌+◌, ◌-◌, ◌≤◌, ◌<◌, ◌≡◌, refl, Bool, true, false, Option, none, some, List, [], ◌∷◌,
  arith, if◌then◌else◌, length, ltb, Bool-cases, Option-cases, inl, inr,
}
use ts_restic_server.Common.Text.{Bytes, eqs}
use ts_restic_server.Common.Dict.{
  Dict, get, put, remove, IsUnique, AllValues, total, size_of, total-put, total-remove,
  size-le-total, put-IsUnique, remove-IsUnique, put-AllValues, remove-AllValues, get-AllValues,
}
use ts_restic_server.Common.Int64.{
  add64, sub64, lt64, half, modulus, add64_small, sub64_small, lt64_small,
}
use ts_restic_server.Storage.{Result, ok, err, panic, Reader}
use ts_restic_server.Memory.{
  Repo, Memory, new, create_repo, delete_repo, store_config, save_config, len_or_0, usage_after,
  fresh_repo, reclaim_bucket, reclaim_buckets, reclaim_config,
}
use ts_restic_server.Memory.Blobs.{
  store_in_bucket, store_blob, save_blob, delete_in_bucket, delete_blob, with_bucket,
}

abbrev pub blobs_size : Dict (Dict Bytes) → ℕ
blobs_size blobs = total (λ bucket. total length bucket) blobs

abbrev pub repo_size : Repo → ℕ
repo_size r = len_or_0 r.config + blobs_size r.blobs

-- The bytes of all configs and blobs.
abbrev pub stored_bytes : Memory → ℕ
stored_bytes b = total repo_size b.repos

abbrev pub HasUniqueNames : Repo → Type 0
HasUniqueNames r = IsUnique r.blobs × AllValues (λ bucket. IsUnique bucket) r.blobs

pub record IsSound (b : Memory) : Type 0 where
  pub limit : b.max_bytes < half
  pub counted : b.used_bytes ≡ stored_bytes b
  pub within : b.used_bytes ≤ b.max_bytes
  pub unique : IsUnique b.repos
  pub names : AllValues HasUniqueNames b.repos

-- The sum that a save compares with the limit does not wrap, and is compared as a number.
pub usage_after_lem :
    (used old fresh limit : ℕ)
    → old ≤ used
    → used ≤ limit
    → limit + fresh < half
    → (usage_after used old fresh ≡ used - old + fresh)
      × (lt64 limit (usage_after used old fresh) ≡ ltb limit (used - old + fresh))
usage_after_lem used old fresh limit h k m =
    let minus : sub64 used old ≡ used - old = sub64_small used old (omega arith) h in
    let plus : add64 (used - old) fresh ≡ used - old + fresh =
      add64_small (used - old) fresh (omega arith) in
    (
      rw (minus, plus),
      rw (minus, plus) (lt64_small limit (used - old + fresh) (omega arith) (omega arith)),
    )

reclaim_bucket_lem :
    (bucket : Dict Bytes) (used : ℕ)
    → used < modulus
    → total length bucket ≤ used
    → reclaim_bucket bucket used ≡ used - total length bucket
unfolding reclaim_bucket
reclaim_bucket_lem [] used h k = omega arith
reclaim_bucket_lem ((name, content) ∷ bucket) used h k =
    rw (sub64_small used (length content) h (omega arith))
      (omega (arith, reclaim_bucket_lem bucket (used - length content) (omega arith) (omega arith)))

reclaim_buckets_lem :
    (blobs : Dict (Dict Bytes)) (used : ℕ)
    → used < modulus
    → blobs_size blobs ≤ used
    → reclaim_buckets blobs used ≡ used - blobs_size blobs
unfolding reclaim_buckets
reclaim_buckets_lem [] used h k = omega arith
reclaim_buckets_lem ((t, bucket) ∷ blobs) used h k =
    rw (reclaim_bucket_lem bucket used h (omega arith)) (
      omega
        (arith, reclaim_buckets_lem blobs (used - total length bucket) (omega arith) (omega arith)))

reclaim_config_lem :
    (config : Option Bytes) (used : ℕ)
    → used < modulus
    → len_or_0 config ≤ used
    → reclaim_config config used ≡ used - len_or_0 config
reclaim_config_lem none used h k = omega arith
reclaim_config_lem (some c) used h k = sub64_small used (length c) h k

pub new-IsSound : (max_bytes : ℕ) → max_bytes < half → IsSound (new max_bytes)
unfolding new
new-IsSound max_bytes h = record {
  limit = h;
  counted = refl;
  within = omega arith;
  unique = tt;
  names = tt;
}

-- Replacing the repository under a key.
put_repo-IsSound :
    (key : Bytes) (r : Repo) (used : ℕ) (b : Memory)
    → IsSound b
    → HasUniqueNames r
    → used + size_of repo_size (get b.repos key) ≡ b.used_bytes + repo_size r
    → used ≤ b.max_bytes
    → IsSound (record b { used_bytes = used; repos = put b.repos key r })
put_repo-IsSound key r used b s names sum fits = record {
  limit = s.limit;
  counted = omega (arith, s.counted, total-put repo_size b.repos key r s.unique);
  within = fits;
  unique = put-IsUnique b.repos key r s.unique;
  names = put-AllValues HasUniqueNames b.repos key r names s.names;
}

fresh_repo-HasUniqueNames : HasUniqueNames fresh_repo
unfolding eqs
fresh_repo-HasUniqueNames = ground arith

pub create_repo-IsSound : (key : Bytes) (b : Memory) → IsSound b → IsSound (create_repo key b).1
create_repo-IsSound key b s = elim (Option-cases (get b.repos key)) [
  | inl absent ↦
      unfold create_repo in
      rw (absent, create_repo)
        (put_repo-IsSound key fresh_repo b.used_bytes b s fresh_repo-HasUniqueNames (rw absent refl)
          s.within)
  | inr (r, present) ↦ unfold create_repo in rw (present, create_repo) s
]

repo_size-le :
    (b : Memory) (key : Bytes) (r : Repo)
    → IsSound b
    → get b.repos key ≡ some r
    → repo_size r ≤ b.used_bytes
repo_size-le b key r s present =
    let bound = size-le-total repo_size b.repos key in omega (arith, s.counted, rw present at bound)

pub delete_repo-IsSound : (key : Bytes) (b : Memory) → IsSound b → IsSound (delete_repo key b).1
delete_repo-IsSound key b s = elim (Option-cases (get b.repos key)) [
  | inl absent ↦ unfold delete_repo in rw (absent, delete_repo) s
  | inr (r, present) ↦
      let bound = repo_size-le b key r s present in
      let room = s.limit in
      let fits = s.within in
      unfold delete_repo in
      rw
        (
          present,
          delete_repo,
          reclaim_config_lem r.config b.used_bytes (omega arith) (omega arith),
          reclaim_buckets_lem r.blobs (b.used_bytes - len_or_0 r.config) (omega arith)
              (omega arith),
        )
        (record {
          limit = s.limit;
          counted =
              omega (arith, s.counted, rw present at (total-remove repo_size b.repos key s.unique));
          within = omega arith;
          unique = remove-IsUnique b.repos key s.unique;
          names = remove-AllValues HasUniqueNames b.repos key s.names;
        })
]

module _ (key : Bytes) (b : Memory) (s : IsSound b) (r : Repo)
    (present : get b.repos key ≡ some r) where
  pub names_of : HasUniqueNames r
  names_of = get-AllValues HasUniqueNames b.repos key s.names present

  -- A new config.
  put_config-IsSound :
      (buf : Bytes) (used : ℕ)
      → used + len_or_0 r.config ≡ b.used_bytes + length buf
      → used ≤ b.max_bytes
      → IsSound
          (record b { used_bytes = used; repos = put b.repos key (record r { config = some buf }) })
  put_config-IsSound buf used sum fits =
      put_repo-IsSound key (record r { config = some buf }) used b s names_of
        (rw present (omega arith)) fits

  -- A new bucket.
  pub with_bucket-IsSound :
      (t : Bytes) (bucket : Dict Bytes) (fresh : Dict Bytes) (used : ℕ)
      → get r.blobs t ≡ some bucket
      → IsUnique fresh
      → used + total length bucket ≡ b.used_bytes + total length fresh
      → used ≤ b.max_bytes
      → IsSound (with_bucket b key r t fresh used)
  with_bucket-IsSound t bucket fresh used here unique sum fits =
      put_repo-IsSound key (record r { blobs = put r.blobs t fresh }) used b s
        (
          put-IsUnique r.blobs t fresh names_of.0,
          put-AllValues (λ c. IsUnique c) r.blobs t fresh unique names_of.1,
        )
        (rw present
          (omega (arith, rw here at (total-put (λ c. total length c) r.blobs t fresh names_of.0))))
        fits

  pub bucket_size-le :
      (t : Bytes) (bucket : Dict Bytes)
      → get r.blobs t ≡ some bucket
      → total length bucket ≤ b.used_bytes
  bucket_size-le t bucket here = omega (
    arith,
    repo_size-le b key r s present,
    rw here at (size-le-total (λ c. total length c) r.blobs t),
  )

  store_present :
      (buf : Bytes) → b.max_bytes + length buf < half → IsSound (store_config key buf b).1
  store_present buf h =
      let bound = repo_size-le b key r s present in
      let (value, test) =
        usage_after_lem b.used_bytes (len_or_0 r.config) (length buf) b.max_bytes (omega arith)
          s.within h in
      unfold store_config in
      rw (present, store_config)
        (elim (Bool-cases
          (lt64 b.max_bytes (usage_after b.used_bytes (len_or_0 r.config) (length buf)))) [
            | inl full ↦ rw full s
            | inr room ↦ rw (room) (put_config-IsSound buf _ (omega arith) (ground arith))
          ])

pub store_config-IsSound :
    (key buf : Bytes) (b : Memory)
    → b.max_bytes + length buf < half
    → IsSound b
    → IsSound (store_config key buf b).1
store_config-IsSound key buf b h s = elim (Option-cases (get b.repos key)) [
  | inl absent ↦ unfold store_config in rw (absent, store_config) s
  | inr (r, present) ↦ store_present key b s r present buf h
]
