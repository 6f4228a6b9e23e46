-- ===== src/Tests/Share.antt =====
-- Tests of internal/storage/smb and internal/storage/nfs.
use ts_restic_server.Common.{◌≡◌, refl, true, false, [], ◌∷◌, arith}
use ts_restic_server.Common.Text.{Bytes, codes, eqs, has_prefix, split, join, trim_right, contains}
use ts_restic_server.Common.Int64.{lt64}
use ts_restic_server.Common.Paths.{join_path, clean, clean_elements, dir_of, base_of, split_last}
use ts_restic_server.Common.Dict.{get, put, remove}
use ts_restic_server.Storage.{ok, Reader, blob_data}
use ts_restic_server.Files.{Answer, done}
use ts_restic_server.Files.Program.{outcome, final}
use ts_restic_server.Files.Disk.{Disk, disk, file_at, disk-IsLawfulShare}
use ts_restic_server.Remote.{
  Client, repo_path, blob_path, unsharded_path, save_blob, get_blob, ensure_connected,
}
use ts_restic_server.Remote.Smb.{smb_client}
use ts_restic_server.Remote.Nfs
use ts_restic_server.Remote.Nfs.{nfs_client, mkdir_all_within, mkdir_all, unless_exists}
use ts_restic_server.Remote.Careful.{smb-IsCareful, nfs-IsCareful, share_keeps_files}
use ts_restic_server.Remote.Kept.{IsUntouched}
use ts_restic_server.Remote.Ending.{mkdir_all_within_lem}

abbrev link : Disk → Answer (Unit {0}) × Disk
link d = (done tt, d)

abbrev old_path : Bytes
old_path = codes "b/r/keys/ff"

abbrev share : Disk
share = record { files = (old_path, codes "key") ∷ []; dirs = [] }

abbrev body : Reader
body = record { content = codes "hello"; fails = false }

abbrev smb : Client Disk
smb = smb_client disk (codes "b") (λ d. true) link link

abbrev nfs : Client Disk
nfs = nfs_client disk (codes "b") (λ d. true) link link

saved_by_nfs :
    outcome
      (get_blob nfs (codes "r") blob_data (codes "abcd") 1 2)
      (final (save_blob nfs (codes "r") blob_data (codes "abcd") body) share)
    ≡ ok (codes "el")
unfolding save_blob get_blob ensure_connected Nfs.atomic_write mkdir_all_within Nfs.is_not_found
    blob_path unsharded_path repo_path dir_of split_last join_path clean clean_elements split join
    eqs has_prefix get put remove base_of trim_right contains lt64
saved_by_nfs = refl

-- A save of the name that stands there leaves the file as it is.
share_keeps_files_example :
    IsUntouched smb file_at
      (smb-IsCareful disk file_at disk-IsLawfulShare
        (codes "b")
        (λ d. true)
        link
        link
        (λ d q. refl)
        (λ d q. refl))
      old_path
      (codes "key")
      (blob_path (codes "b") (codes "r") (codes "keys") (codes "ff"))
      share
      (save_blob smb (codes "r") (codes "keys") (codes "ff") body share)
    × IsUntouched nfs file_at
        (nfs-IsCareful disk file_at disk-IsLawfulShare
          (codes "b")
          (λ d. true)
          link
          link
          (λ d q. refl)
          (λ d q. refl))
        old_path
        (codes "key")
        (blob_path (codes "b") (codes "r") (codes "keys") (codes "ff"))
        share
        (save_blob nfs (codes "r") (codes "keys") (codes "ff") body share)
unfolding get eqs blob_path repo_path dir_of split_last join_path clean clean_elements split join
    base_of trim_right
share_keeps_files_example =
    share_keeps_files disk file_at disk-IsLawfulShare (codes "b") (λ d. true) link link
      (λ d q. refl) (λ d q. refl) (codes "r") (codes "keys") (codes "ff") body old_path
      (codes "key") share (λ e. cc) refl

mkdir_all_within_lem_example :
    mkdir_all_within disk 20 (codes "b/r/keys") share
    ≡ unless_exists disk
        (codes "b/r/keys")
        (mkdir_all disk (dir_of (codes "b/r/keys")))
        (disk.stat (codes "b/r/keys") share)
        share
unfolding eqs
mkdir_all_within_lem_example = mkdir_all_within_lem disk 20 (codes "b/r/keys") share (omega arith)
