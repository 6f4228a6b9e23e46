-- ===== src/Remote.antt =====
-- internal/storage/smb/smb.go and internal/storage/nfs/nfs.go: the backends on a network share. Their
-- methods are the same code over two clients, so they stand here once, over what differs: how an error
-- is recognized, how a directory and a file are made, and which entries a directory lists. How a
-- connection is made and closed is the client's. Each method holds the backend's mutex around its
-- calls.
pub mod Smb
pub mod Nfs
pub mod Kept
pub mod Export
pub mod Careful
pub mod Ending
use ts_restic_server.Common.{
  ℕ, zero, suc, ◌+◌, Bool, true, false, ◌&&◌, ◌||◌, not, take, Option, none, some, List, [], ◌∷◌,
  ◌++◌, if◌then◌else◌,
}
use ts_restic_server.Common.Text.{Bytes, codes, eqs}
use ts_restic_server.Common.Paths.{join_path, dir_of, base_of}
use ts_restic_server.Storage.{
  Error, Result, ok, err, panic, not_found, repo_not_found, other, Reader, Blob, blob_data,
}
use ts_restic_server.Files.{Files, Answer, done, failed, CallError, Info}
use ts_restic_server.Files.Program.{
  Program, return, fail, attempt, call, look, ◌>>=◌, ◌>>◌, or_clean,
}
use ts_restic_server.Filesystem.{is_sharded, shard_name, ranged}
use ts_restic_server.Filesystem.Writes.{repo_dirs}

-- repoPath, for the configured base path and the repository prefix of the context
unfoldable pub repo_path : Bytes → Bytes → Bytes
repo_path base prefix =
    if not (eqs base []) && not (eqs prefix [])
    then join_path (base ∷ prefix ∷ [])
    else if not (eqs base [])
    then base
    else if not (eqs prefix [])
    then prefix
    else codes "."

unfoldable pub config_path : Bytes → Bytes → Bytes
config_path base prefix = join_path (repo_path base prefix ∷ codes "config" ∷ [])

unfoldable pub type_path : Bytes → Bytes → Bytes → Bytes
type_path base prefix t = join_path (repo_path base prefix ∷ t ∷ [])

unfoldable pub blob_path : Bytes → Bytes → Bytes → Bytes → Bytes
blob_path base prefix t name =
    if is_sharded t name
    then join_path (repo_path base prefix ∷ codes "data" ∷ take 2 name ∷ name ∷ [])
    else join_path (repo_path base prefix ∷ t ∷ name ∷ [])

unfoldable pub unsharded_path : Bytes → Bytes → Bytes → Bytes
unsharded_path base prefix name = join_path (repo_path base prefix ∷ codes "data" ∷ name ∷ [])

-- The path of the temporary file that atomicWrite makes.
abbrev pub temp_path : Bytes → Bytes
temp_path path = join_path (dir_of path ∷ (codes ".tmp-" ++ base_of path) ∷ [])

-- The fields of the backend, with the calls of its client.
pub record Client (S : Type 0) : Type 0 where
  pub base_path : Bytes
  pub files : Files S
  pub is_connected : S → Bool
  pub connect : S → Answer (Unit {0}) × S
  pub disconnect : S → Answer (Unit {0}) × S
  pub is_not_found : CallError → Bool
  pub make_dir : Bytes → Program S (Unit {0})
  pub write_file : Bytes → Bytes → Program S (Unit {0})
  pub is_listed : Info → Bool

module _ {S : Type 0} (b : Client S) where
  abbrev pub reconnect : Program S (Unit {0})
  reconnect = do attempt b.disconnect; call b.connect

  abbrev pub check_path : Bytes
  check_path = if eqs b.base_path [] then codes "." else b.base_path

  abbrev pub unless_alive : Answer Info → Program S (Unit {0})
  unless_alive (done info) = return tt
  unless_alive (failed e) = reconnect

  -- ensureConnected
  unfoldable pub ensure_connected : Program S (Unit {0})
  ensure_connected = do
    connected ← look b.is_connected
    if connected then look (b.files.stat check_path) >>= unless_alive else reconnect

  -- withShare, withTarget
  abbrev pub with_client : {A : Type 0} → Program S A → Program S A
  with_client m = ensure_connected >> m

  -- the error of a call, of which "not found" is told apart
  abbrev pub missing_or_other : {A : Type 0} → Error → CallError → Program S A
  missing_or_other missing e = if b.is_not_found e then fail missing else fail other

  abbrev pub file_size : Answer Info → Program S ℕ
  file_size (done info) = return info.size
  file_size (failed e) = missing_or_other not_found e

  unfoldable pub make_all : List Bytes → Program S (Unit {0})
  make_all [] = return tt
  make_all (dir ∷ dirs) = b.make_dir dir >> make_all dirs

  -- CreateRepo
  unfoldable pub create_repo : Bytes → Program S (Unit {0})
  create_repo prefix = with_client (make_all (repo_dirs (repo_path b.base_path prefix)))

  abbrev pub delete_found : Bytes → Answer Info → Program S (Unit {0})
  delete_found path (done info) = call (b.files.remove_all path)
  delete_found path (failed e) = missing_or_other repo_not_found e

  -- DeleteRepo
  unfoldable pub delete_repo : Bytes → Program S (Unit {0})
  delete_repo prefix =
      let p = repo_path b.base_path prefix in with_client (look (b.files.stat p) >>= delete_found p)

  -- StatConfig
  unfoldable pub stat_config : Bytes → Program S ℕ
  stat_config prefix =
      with_client (look (b.files.stat (config_path b.base_path prefix)) >>= file_size)

  abbrev pub to_content : Answer Bytes → Program S Bytes
  to_content (done content) = return content
  to_content (failed e) = fail other

  abbrev pub read_opened : Bytes → Answer (Unit {0}) → Program S Bytes
  read_opened path (done u) = look (b.files.read path) >>= to_content
  read_opened path (failed e) = missing_or_other not_found e

  -- GetConfig
  unfoldable pub get_config : Bytes → Program S Bytes
  get_config prefix =
      let p = config_path b.base_path prefix in
      with_client (look (b.files.open_read p) >>= read_opened p)

  abbrev pub with_body : Reader → (Bytes → Program S (Unit {0})) → Program S (Unit {0})
  with_body body m = if body.fails then fail other else m body.content

  abbrev pub make_and_write : Bytes → Bytes → Program S (Unit {0})
  make_and_write path content = b.make_dir (dir_of path) >> b.write_file path content

  -- SaveConfig
  unfoldable pub save_config : Bytes → Reader → Program S (Unit {0})
  save_config prefix body =
      with_body body
        (λ content. with_client (make_and_write (config_path b.base_path prefix) content))

  -- StatBlob, after its first call
  abbrev pub or_unsharded_size : Bytes → Bytes → Bytes → Answer Info → Program S ℕ
  or_unsharded_size prefix t name (done info) = return info.size
  or_unsharded_size prefix t name (failed e) =
      if b.is_not_found e && is_sharded t name
      then look (b.files.stat (unsharded_path b.base_path prefix name)) >>= file_size
      else missing_or_other not_found e

  -- StatBlob
  unfoldable pub stat_blob : Bytes → Bytes → Bytes → Program S ℕ
  stat_blob prefix t name = with_client (
      look (b.files.stat (blob_path b.base_path prefix t name)) >>= or_unsharded_size prefix t name)

  abbrev pub limited : ℕ → ℕ → Program S Bytes → Program S Bytes
  limited offset count m = m >>= λ content. return (ranged offset count content)

  -- GetBlob, after its first Open
  abbrev pub or_unsharded : Bytes → Bytes → Bytes → Answer (Unit {0}) → Program S Bytes
  or_unsharded prefix t name (done u) = read_opened (blob_path b.base_path prefix t name) (done u)
  or_unsharded prefix t name (failed e) =
      let up = unsharded_path b.base_path prefix name in
      if b.is_not_found e && is_sharded t name
      then look (b.files.open_read up) >>= read_opened up
      else missing_or_other not_found e

  -- GetBlob; Seek and the limit of the reader choose the range
  unfoldable pub get_blob : Bytes → Bytes → Bytes → ℕ → ℕ → Program S Bytes
  get_blob prefix t name offset count = with_client (
      limited offset count (
        look (b.files.open_read (blob_path b.base_path prefix t name))
        >>= or_unsharded prefix t name))

  abbrev pub is_there : Answer Info → Bool
  is_there (done info) = true
  is_there (failed e) = false

  abbrev pub unless_unsharded : Bytes → Bytes → Bytes → Bytes → Program S (Unit {0})
  unless_unsharded prefix t name content =
      if is_sharded t name
      then (do
        found ← look (b.files.stat (unsharded_path b.base_path prefix name))
        if is_there found
            then return tt
            else make_and_write (blob_path b.base_path prefix t name) content)
      else make_and_write (blob_path b.base_path prefix t name) content

  -- SaveBlob
  unfoldable pub save_blob : Bytes → Bytes → Bytes → Reader → Program S (Unit {0})
  save_blob prefix t name body = with_body body (λ content. with_client (do
    found ← look (b.files.stat (blob_path b.base_path prefix t name))
    if is_there found then return tt else unless_unsharded prefix t name content))

  abbrev pub removed : Answer (Unit {0}) → Program S (Unit {0})
  removed (done u) = return tt
  removed (failed e) = missing_or_other not_found e

  abbrev pub or_remove_unsharded : Bytes → Bytes → Bytes → Answer (Unit {0}) → Program S (Unit {0})
  or_remove_unsharded prefix t name (done u) = return tt
  or_remove_unsharded prefix t name (failed e) =
      if b.is_not_found e && is_sharded t name
      then attempt (b.files.remove (unsharded_path b.base_path prefix name)) >>= removed
      else missing_or_other not_found e

  -- DeleteBlob
  unfoldable pub delete_blob : Bytes → Bytes → Bytes → Program S (Unit {0})
  delete_blob prefix t name = with_client (
      attempt (b.files.remove (blob_path b.base_path prefix t name))
      >>= or_remove_unsharded prefix t name)

  -- the loop of listDir
  abbrev pub blobs_of : List Info → List Blob
  blobs_of [] = []
  blobs_of (info ∷ entries) =
      let rest = blobs_of entries in
      if b.is_listed info then record { name = info.name; size = info.size } ∷ rest else rest

  abbrev pub listed : Answer (List Info) → Program S (List Blob)
  listed (done entries) = return (blobs_of entries)
  listed (failed e) = if b.is_not_found e then return [] else fail other

  -- listDir
  unfoldable pub list_dir : Bytes → Program S (List Blob)
  list_dir dir = look (b.files.read_dir dir) >>= listed

  -- the loop of listShardedBlobs, for the numbers from i on
  unfoldable pub list_shards : Bytes → ℕ → ℕ → Program S (List Blob)
  list_shards dir zero i = return []
  list_shards dir (suc n) i = do
    first ← list_dir (join_path (dir ∷ shard_name i ∷ []))
    rest ← list_shards dir n (i + 1)
    return (first ++ rest)

  -- listShardedBlobs
  unfoldable pub list_sharded : Bytes → Program S (List Blob)
  list_sharded dir = do
    flat ← list_dir dir
    sharded ← list_shards dir 256 0
    return (flat ++ sharded)

  -- ListBlobs
  unfoldable pub list_blobs : Bytes → Bytes → Program S (List Blob)
  list_blobs prefix t =
      let dir = type_path b.base_path prefix t in
      with_client (if eqs t blob_data then list_sharded dir else list_dir dir)
