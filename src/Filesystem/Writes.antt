-- ===== src/Filesystem/Writes.antt =====
-- The methods of internal/storage/filesystem/filesystem.go that write, as programs of calls.
use ts_restic_server.Common.{
  ℕ, zero, suc, ◌+◌, Bool, false, Option, none, some, List, [], ◌∷◌, if◌then◌else◌,
}
use ts_restic_server.Common.Text.{Bytes, codes}
use ts_restic_server.Common.Paths.{join_path, dir_of}
use ts_restic_server.Storage.{Error, repo_not_found, other, Reader}
use ts_restic_server.Files.{Files, Answer, done, failed, Info}
use ts_restic_server.Files.Program.{
  Program, return, fail, attempt, call, look, ◌>>=◌, ◌>>◌, or_clean,
}
use ts_restic_server.Filesystem.{Filesystem, repo_path, config_path, validate_path, shard_name}

-- the loop `for i := 0; i < 256; i++` of CreateRepo, for the numbers from i on
abbrev pub shard_dirs : Bytes → ℕ → ℕ → List Bytes
shard_dirs repo zero i = []
shard_dirs repo (suc n) i =
    join_path (repo ∷ codes "data" ∷ shard_name i ∷ []) ∷ shard_dirs repo n (i + 1)

-- the directories of CreateRepo
abbrev pub repo_dirs : Bytes → List Bytes
repo_dirs repo =
    repo
    ∷ join_path (repo ∷ codes "keys" ∷ [])
    ∷ join_path (repo ∷ codes "locks" ∷ [])
    ∷ join_path (repo ∷ codes "snapshots" ∷ [])
    ∷ join_path (repo ∷ codes "index" ∷ [])
    ∷ shard_dirs repo 256 0

module _ {S : Type 0} (f : Files S) where
  -- the deferred function of atomicWrite
  abbrev pub discard : Bytes → Program S (Unit {0})
  discard tmp = do attempt (f.close tmp); attempt (f.remove tmp); return tt

  abbrev pub with_resolved : Bytes → Answer Bytes → Program S Filesystem
  with_resolved base (done resolved) =
      return (record { base_path = base; resolved_base = resolved })
  with_resolved base (failed e) = fail other

  -- New
  unfoldable pub new : Bytes → Program S Filesystem
  new base = call (f.mkdir_all base) >> (look (f.eval_symlinks base) >>= with_resolved base)

  -- atomicWrite after the temporary file is created
  abbrev pub write_to : Bytes → Reader → Bytes → Program S (Unit {0})
  write_to path body tmp = do
    or_clean (do call (f.write tmp body); call (f.sync tmp); call (f.close tmp)) (discard tmp)
    or_clean (call (f.rename tmp path)) (do attempt (f.remove tmp); return tt)

  -- atomicWrite
  unfoldable pub atomic_write : Bytes → Reader → Program S (Unit {0})
  atomic_write path body = do tmp ← call (f.create_temp (dir_of path)); write_to path body tmp

  unfoldable pub make_dirs : List Bytes → Program S (Unit {0})
  make_dirs [] = return tt
  make_dirs (dir ∷ dirs) = do call (f.mkdir_all dir); make_dirs dirs

module _ {S : Type 0} (f : Files S) (b : Filesystem) where
  abbrev pub nil_or_error : Option Error → Program S (Unit {0})
  nil_or_error none = return tt
  nil_or_error (some e) = fail e

  -- validatePath, of which an error is returned
  abbrev pub ensure_valid : Bytes → Program S (Unit {0})
  ensure_valid path = look (validate_path f b path) >>= nil_or_error

  -- CreateRepo
  unfoldable pub create_repo : Bytes → Program S (Unit {0})
  create_repo prefix = make_dirs f (repo_dirs (repo_path b prefix))

  abbrev pub is_missing : Answer Info → Bool
  is_missing (done info) = false
  is_missing (failed e) = e.not_exist

  -- DeleteRepo
  unfoldable pub delete_repo : Bytes → Program S (Unit {0})
  delete_repo prefix = do
    ensure_valid (repo_path b prefix)
    found ← look (f.stat (repo_path b prefix))
    if is_missing found then fail repo_not_found else call (f.remove_all (repo_path b prefix))

  -- SaveConfig
  unfoldable pub save_config : Bytes → Reader → Program S (Unit {0})
  save_config prefix body = do
    ensure_valid (config_path b prefix)
    call (f.mkdir_all (dir_of (config_path b prefix)))
    atomic_write f (config_path b prefix) body
