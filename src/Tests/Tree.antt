-- ===== src/Tests/Tree.antt =====
-- Tests of internal/storage/filesystem.
use ts_restic_server.Common.{◌≡◌, refl, inr, true, false, none, some, [], ◌∷◌}
use ts_restic_server.Common.Text.{Bytes, codes, eqs, has_prefix, ends_with, split, join, trim_right}
use ts_restic_server.Common.Paths.{join_path, clean, clean_elements, dir_of, base_of, split_last}
use ts_restic_server.Common.Dict.{get, put, remove}
use ts_restic_server.Storage.{ok, err, not_found, Reader, blob_data}
use ts_restic_server.Files.Program.{outcome, final}
use ts_restic_server.Files.Disk.{Disk, disk, file_at, disk-IsLawful}
use ts_restic_server.Filesystem.{
  Filesystem, repo_path, blob_path, unsharded_path, validate_path, is_sub_path, get_blob,
}
use ts_restic_server.Filesystem.Writes.{atomic_write, delete_repo}
use ts_restic_server.Filesystem.Atomic.{AtomicEffect, atomic_write_lem}
use ts_restic_server.Filesystem.Blobs.{is_there, save_blob}
use ts_restic_server.Filesystem.Kept.{IsUntouched, save_blob_keeps_files}
use ts_restic_server.Filesystem.Removed.{delete_repo-empties}
use ts_restic_server.Filesystem.Saved.{save_blob-skips, read_saved}

abbrev tree : Filesystem
tree = record { base_path = codes "/srv"; resolved_base = codes "/srv" }

abbrev repo_r : Bytes
repo_r = codes "r"

abbrev name_abcd : Bytes
name_abcd = codes "abcd"

abbrev saved_path : Bytes
saved_path = codes "/srv/r/data/ab/abcd"

abbrev hello : Reader
hello = record { content = codes "hello"; fails = false }

abbrev empty_disk : Disk
empty_disk = record { files = []; dirs = [] }

-- One blob of a repository, and a repository below it.
abbrev nested_disk : Disk
nested_disk = record {
  files = (saved_path, codes "hello") ∷ (codes "/srv/r/below/config", codes "config") ∷ [];
  dirs = codes "/srv/r/data/ab" ∷ codes "/srv/r/data/cd" ∷ codes "/srv/r" ∷ [];
}

path_is : blob_path tree repo_r blob_data name_abcd ≡ saved_path
unfolding blob_path repo_path join_path clean clean_elements split join eqs
path_is = refl

saved : outcome (save_blob disk tree repo_r blob_data name_abcd hello) empty_disk ≡ ok tt
unfolding save_blob atomic_write validate_path is_sub_path blob_path unsharded_path repo_path dir_of
    split_last join_path clean clean_elements split join eqs has_prefix get put remove base_of
    trim_right
saved = refl

still_valid :
    validate_path disk tree
      (blob_path tree repo_r blob_data name_abcd)
      (final (save_blob disk tree repo_r blob_data name_abcd hello) empty_disk)
    ≡ none
unfolding save_blob atomic_write validate_path is_sub_path blob_path unsharded_path repo_path dir_of
    split_last join_path clean clean_elements split join eqs has_prefix get put remove base_of
    trim_right
still_valid = refl

read_saved_example :
    get_blob disk tree repo_r blob_data name_abcd 0 0
      (final (save_blob disk tree repo_r blob_data name_abcd hello) empty_disk)
    ≡ ok (codes "hello")
unfolding get
read_saved_example =
    read_saved disk tree repo_r blob_data name_abcd hello empty_disk file_at disk-IsLawful
      (record { absent = refl; absent_unsharded = refl }) saved still_valid

atomic_write_lem_example :
    AtomicEffect disk file_at disk-IsLawful saved_path hello
      (codes "/srv/r/below/config")
      (some (codes "config"))
      (atomic_write disk saved_path hello nested_disk)
unfolding get eqs
atomic_write_lem_example =
    atomic_write_lem disk file_at disk-IsLawful saved_path hello (codes "/srv/r/below/config")
      nested_disk

-- Another body for the blob that stands there.
abbrev other : Reader
other = record { content = codes "other"; fails = false }

save_blob_keeps_files_example :
    IsUntouched disk file_at disk-IsLawful tree
      (blob_path tree repo_r blob_data name_abcd)
      other
      saved_path
      (codes "hello")
      nested_disk
      (save_blob disk tree repo_r blob_data name_abcd other nested_disk)
unfolding get eqs
save_blob_keeps_files_example =
    save_blob_keeps_files disk file_at disk-IsLawful tree repo_r blob_data name_abcd other
      saved_path (codes "hello") nested_disk refl

-- The unsharded path of the blob "cd" is the shard directory of the blobs whose names begin so.
abbrev name_cd : Bytes
name_cd = codes "cd"

taken_by_shard :
    is_there disk tree (disk.lstat (unsharded_path tree repo_r name_cd) nested_disk) ≡ true
unfolding unsharded_path repo_path join_path clean clean_elements split join eqs get base_of
    trim_right split_last
taken_by_shard = refl

valid_cd : validate_path disk tree (blob_path tree repo_r blob_data name_cd) nested_disk ≡ none
unfolding validate_path is_sub_path blob_path repo_path join_path clean clean_elements split join
    eqs has_prefix
valid_cd = refl

two_digits_skipped :
    save_blob disk tree repo_r blob_data name_cd hello nested_disk ≡ ([], ok tt, nested_disk)
unfolding eqs
two_digits_skipped =
    save_blob-skips disk tree repo_r blob_data name_cd hello nested_disk valid_cd
      (inr (refl, taken_by_shard))

not_saved : get_blob disk tree repo_r blob_data name_cd 0 0 nested_disk ≡ err not_found
unfolding get_blob validate_path is_sub_path blob_path unsharded_path repo_path join_path clean
    clean_elements split join eqs has_prefix get
not_saved = refl

deleted : outcome (delete_repo disk tree repo_r) nested_disk ≡ ok tt
unfolding delete_repo validate_path is_sub_path repo_path join_path clean clean_elements split join
    eqs has_prefix get base_of trim_right split_last
deleted = refl

-- The repository "r/below" went with the repository "r".
below_gone :
    file_at (final (delete_repo disk tree repo_r) nested_disk) (codes "/srv/r/below/config") ≡ none
unfolding repo_path join_path clean clean_elements split join eqs has_prefix ends_with
below_gone =
    delete_repo-empties disk file_at disk-IsLawful tree repo_r (codes "/srv/r/below/config")
      nested_disk refl deleted
