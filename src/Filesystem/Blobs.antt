-- ===== src/Filesystem/Blobs.antt =====
-- SaveBlob and DeleteBlob of internal/storage/filesystem/filesystem.go, and the backend as a
-- storage.Backend. How much a failed save has read of its body is not modelled, and no caller asks.
use ts_restic_server.Common.{Bool, true, false, ◌&&◌, Option, none, some, if◌then◌else◌, length}
use ts_restic_server.Common.Text.{Bytes}
use ts_restic_server.Common.Paths.{dir_of}
use ts_restic_server.Storage.{Error, Result, not_found, other, Reader, Saved, Backend}
use ts_restic_server.Files.{Files, Answer, done, failed, Info}
use ts_restic_server.Files.Program.{
  Program, return, fail, attempt, call, look, ◌>>=◌, ◌>>◌, outcome, final,
}
use ts_restic_server.Filesystem.{
  Filesystem, blob_path, unsharded_path, is_sharded, validate_path, stat_config, get_config,
  stat_blob, get_blob, list_blobs,
}
use ts_restic_server.Filesystem.Writes.{
  ensure_valid, atomic_write, create_repo, delete_repo, save_config,
}

module _ {S : Type 0} (f : Files S) (b : Filesystem) where
  abbrev pub is_there : Answer Info → Bool
  is_there (done info) = true
  is_there (failed e) = false

  -- SaveBlob when no file has the path of the blob, nor the unsharded one
  abbrev pub write_blob : Bytes → Reader → Program S (Unit {0})
  write_blob path body = do call (f.mkdir_all (dir_of path)); atomic_write f path body

  -- SaveBlob when no file has the path of the blob
  abbrev pub unless_unsharded : Bytes → Bytes → Bytes → Reader → Program S (Unit {0})
  unless_unsharded prefix t name body =
      if is_sharded t name
      then (do
        found ← look (f.lstat (unsharded_path b prefix name))
        if is_there found then return tt else write_blob (blob_path b prefix t name) body)
      else write_blob (blob_path b prefix t name) body

  -- SaveBlob; a body that is drained is not looked at
  unfoldable pub save_blob : Bytes → Bytes → Bytes → Reader → Program S (Unit {0})
  save_blob prefix t name body = do
    ensure_valid f b (blob_path b prefix t name)
    found ← look (f.lstat (blob_path b prefix t name))
    if is_there found then return tt else unless_unsharded prefix t name body

  abbrev pub if_checked : Bytes → Answer (Unit {0}) → Option Error → Program S (Answer (Unit {0}))
  if_checked path first none = attempt (f.remove path)
  if_checked path first (some e) = return first

  -- the fallback of DeleteBlob
  abbrev pub or_remove_unsharded :
      Bytes → Bytes → Bytes → Answer (Unit {0}) → Program S (Answer (Unit {0}))
  or_remove_unsharded prefix t name (done u) = return (done u)
  or_remove_unsharded prefix t name (failed e) =
      if e.not_exist && is_sharded t name
      then (do
        checked ← look (validate_path f b (unsharded_path b prefix name))
        if_checked (unsharded_path b prefix name) (failed e) checked)
      else return (failed e)

  abbrev pub removed : Answer (Unit {0}) → Program S (Unit {0})
  removed (done u) = return tt
  removed (failed e) = if e.not_exist then fail not_found else fail other

  -- DeleteBlob
  unfoldable pub delete_blob : Bytes → Bytes → Bytes → Program S (Unit {0})
  delete_blob prefix t name = do
    ensure_valid f b (blob_path b prefix t name)
    first ← attempt (f.remove (blob_path b prefix t name))
    second ← or_remove_unsharded prefix t name first
    removed second

  abbrev pub saved_of : Reader → Result (Unit {0}) → Saved
  saved_of body r = record { result = r; read = length body.content }

  abbrev pub backend : Backend S
  backend = record {
    create_repo =
        λ prefix s. (outcome (create_repo f b prefix) s, final (create_repo f b prefix) s);
    delete_repo =
        λ prefix s. (outcome (delete_repo f b prefix) s, final (delete_repo f b prefix) s);
    stat_config = stat_config f b;
    get_config = get_config f b;
    save_config = λ prefix body s. (
      saved_of body (outcome (save_config f b prefix body) s),
      final (save_config f b prefix body) s,
    );
    stat_blob = stat_blob f b;
    get_blob = get_blob f b;
    save_blob = λ prefix t name body s. (
      saved_of body (outcome (save_blob prefix t name body) s),
      final (save_blob prefix t name body) s,
    );
    delete_blob = λ prefix t name s.
        (outcome (delete_blob prefix t name) s, final (delete_blob prefix t name) s);
    list_blobs = list_blobs f b;
  }
