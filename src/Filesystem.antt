-- ===== src/Filesystem.antt =====
-- internal/storage/filesystem/filesystem.go: the backend on a directory tree. What it calls of the
-- operating system is the parameter `f`. Where its methods write is in Filesystem/Writes, the methods
-- on blobs in Filesystem/Blobs.
pub mod Writes
pub mod Atomic
pub mod Blobs
pub mod Kept
pub mod Saved
pub mod Removed
use ts_restic_server.Common.{
  ℕ, ◌+◌, ◌/◌, ◌%◌, Bool, true, false, ◌&&◌, ◌||◌, Option, none, some, List, [], ◌∷◌, ◌++◌,
  if◌then◌else◌, leb, ltb, length, take, drop, ◌==◌,
}
use ts_restic_server.Common.Int64.{lt64}
use ts_restic_server.Common.Text.{Bytes, codes, eqs, has_prefix}
use ts_restic_server.Common.Paths.{join_path, dir_of}
use ts_restic_server.Storage.{Error, Result, ok, err, not_found, other, panic, blob_data, Blob}
use ts_restic_server.Files.{Files, Answer, done, failed, CallError, Info}

pub record Filesystem : Type 0 where
  pub base_path : Bytes
  pub resolved_base : Bytes

-- repoPath, for the repository prefix of the context
unfoldable pub repo_path : Filesystem → Bytes → Bytes
repo_path b prefix = if eqs prefix [] then b.base_path else join_path (b.base_path ∷ prefix ∷ [])

unfoldable pub config_path : Filesystem → Bytes → Bytes
config_path b prefix = join_path (repo_path b prefix ∷ codes "config" ∷ [])

unfoldable pub type_path : Filesystem → Bytes → Bytes → Bytes
type_path b prefix t = join_path (repo_path b prefix ∷ t ∷ [])

-- t == storage.BlobData && len(name) >= 2
abbrev pub is_sharded : Bytes → Bytes → Bool
is_sharded t name = eqs t blob_data && leb 2 (length name)

unfoldable pub blob_path : Filesystem → Bytes → Bytes → Bytes → Bytes
blob_path b prefix t name =
    if is_sharded t name
    then join_path (repo_path b prefix ∷ codes "data" ∷ take 2 name ∷ name ∷ [])
    else join_path (repo_path b prefix ∷ t ∷ name ∷ [])

unfoldable pub unsharded_path : Filesystem → Bytes → Bytes → Bytes
unsharded_path b prefix name = join_path (repo_path b prefix ∷ codes "data" ∷ name ∷ [])

-- isSubPath
unfoldable pub is_sub_path : Bytes → Bytes → Bool
is_sub_path path base = eqs path base || has_prefix path (base ++ codes "/")

abbrev pub hex_char : ℕ → ℕ
hex_char n = if ltb n 10 then 48 + n else 87 + n

-- fmt.Sprintf("%02x", i), below 256
abbrev pub shard_name : ℕ → Bytes
shard_name i = hex_char (i / 16) ∷ hex_char (i % 16) ∷ []

-- limited to the range of a GetBlob: Seek and io.LimitReader
abbrev pub ranged : ℕ → ℕ → Bytes → Bytes
ranged offset count content =
    let rest = if lt64 0 offset then drop offset content else content in
    if lt64 0 count then take count rest else rest

module _ {S : Type 0} (f : Files S) (b : Filesystem) where
  abbrev pub check_base : Bytes → Option Error
  check_base resolved = if is_sub_path resolved b.resolved_base then none else some other

  abbrev pub check_parent : Answer Bytes → Option Error
  check_parent (done resolved) = check_base resolved
  check_parent (failed e) = some other

  abbrev pub check_resolved : Bytes → S → Answer Bytes → Option Error
  check_resolved path s (done resolved) = check_base resolved
  check_resolved path s (failed e) =
      if e.not_exist then check_parent (f.eval_symlinks (dir_of path) s) else some other

  -- validatePath; `none` is the nil error
  unfoldable pub validate_path : Bytes → S → Option Error
  validate_path path s = check_resolved path s (f.eval_symlinks path s)

  -- the reading of a method that begins with validatePath
  abbrev pub if_valid : {A : Type 0} → Option Error → Result A → Result A
  if_valid none r = r
  if_valid (some e) r = err e

  abbrev pub no_file : {A : Type 0} → CallError → Result A
  no_file e = if e.not_exist then err not_found else err other

  abbrev pub file_size : Answer Info → Result ℕ
  file_size (done info) = ok info.size
  file_size (failed e) = no_file e

  -- statFile
  unfoldable pub stat_file : Bytes → S → Result ℕ
  stat_file path s = file_size (f.stat path s)

  -- StatConfig
  unfoldable pub stat_config : Bytes → S → Result ℕ
  stat_config prefix s =
      let p = config_path b prefix in if_valid (validate_path p s) (stat_file p s)

  abbrev pub opened : Answer Bytes → Result Bytes
  opened (done content) = ok content
  opened (failed e) = no_file e

  -- GetConfig
  unfoldable pub get_config : Bytes → S → Result Bytes
  get_config prefix s =
      let p = config_path b prefix in if_valid (validate_path p s) (opened (f.read p s))

  -- the end of StatBlob: the size, or the fallback to the unsharded path
  abbrev pub or_unsharded_size : Bytes → Bytes → Bytes → S → Result ℕ → Result ℕ
  or_unsharded_size prefix t name s (err not_found) =
      if is_sharded t name
      then elim (validate_path (unsharded_path b prefix name) s) [
        | none ↦ stat_file (unsharded_path b prefix name) s
        | some e ↦ err not_found
      ]
      else err not_found
  or_unsharded_size prefix t name s r = r

  -- StatBlob
  unfoldable pub stat_blob : Bytes → Bytes → Bytes → S → Result ℕ
  stat_blob prefix t name s =
      let p = blob_path b prefix t name in
      if_valid (validate_path p s) (or_unsharded_size prefix t name s (stat_file p s))

  -- the file that GetBlob opens
  abbrev pub or_unsharded : Bytes → Bytes → Bytes → S → Answer Bytes → Answer Bytes
  or_unsharded prefix t name s (done content) = done content
  or_unsharded prefix t name s (failed e) =
      if e.not_exist && is_sharded t name
      then elim (validate_path (unsharded_path b prefix name) s) [
        | none ↦ f.read (unsharded_path b prefix name) s
        | some invalid ↦ failed e
      ]
      else failed e

  abbrev pub ranged_result : ℕ → ℕ → Answer Bytes → Result Bytes
  ranged_result offset count (done content) = ok (ranged offset count content)
  ranged_result offset count (failed e) = no_file e

  -- GetBlob
  unfoldable pub get_blob : Bytes → Bytes → Bytes → ℕ → ℕ → S → Result Bytes
  get_blob prefix t name offset count s =
      let p = blob_path b prefix t name in
      if_valid (validate_path p s)
        (ranged_result offset count (or_unsharded prefix t name s (f.read p s)))

  -- the function that ListBlobs passes to Walk, over what Walk passes to it
  unfoldable pub walk_blobs : List (Answer Info) → Result (List Blob)
  walk_blobs [] = ok []
  walk_blobs (failed e ∷ rest) =
      let later = walk_blobs rest in if e.not_exist then later else err other
  walk_blobs (done info ∷ rest) =
      let later = walk_blobs rest in
      if info.is_dir || info.is_symlink then later else elim later [
        | ok blobs ↦ ok (record { name = info.name; size = info.size } ∷ blobs)
        | err e ↦ err e
        | panic ↦ panic
      ]

  -- ListBlobs
  unfoldable pub list_blobs : Bytes → Bytes → S → Result (List Blob)
  list_blobs prefix t s =
      let dir = type_path b prefix t in if_valid (validate_path dir s) (walk_blobs (f.walk dir s))
