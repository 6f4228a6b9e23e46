-- ===== src/Webdav.antt =====
-- internal/storage/webdav/webdav.go: the backend on a WebDAV server. The calls of its client, a
-- gowebdav.Client, are parameters.
pub mod Reads
use ts_restic_server.Common.{
  ℕ, zero, suc, ◌+◌, Bool, true, false, ◌&&◌, ◌||◌, take, Option, none, some, List, [], ◌∷◌, ◌++◌,
  if◌then◌else◌,
}
use ts_restic_server.Common.Int64.{lt64}
use ts_restic_server.Common.Text.{Bytes, codes, eqs, contains, join}
use ts_restic_server.Common.Paths.{join_path, dir_of}
use ts_restic_server.Storage.{Result, ok, err, not_found, other, Reader, Blob, blob_data}
use ts_restic_server.Files.{Answer, done, failed, CallError, Info}
use ts_restic_server.Files.Program.{Program, return, fail, attempt, call, look, ◌>>=◌, ◌>>◌}
use ts_restic_server.Filesystem.{is_sharded, shard_name}
use ts_restic_server.Rclone.{trim_slash}

-- The calls of the client, on what a server keeps. `read_stream` and `read_stream_range` give what the
-- stream delivers.
pub record DavClient (S : Type 0) : Type 0 where
  pub mkdir_all : Bytes → S → Answer (Unit {0}) × S
  pub remove_all : Bytes → S → Answer (Unit {0}) × S
  pub remove : Bytes → S → Answer (Unit {0}) × S
  pub stat : Bytes → S → Answer Info
  pub read_dir : Bytes → S → Answer (List Info)
  pub read_stream : Bytes → S → Answer Bytes
  pub read_stream_range : Bytes → ℕ → ℕ → S → Answer Bytes
  pub write_stream : Bytes → Reader → S → Answer (Unit {0}) × S

pub record Webdav (S : Type 0) : Type 0 where
  pub client : DavClient S
  pub prefix : Bytes

-- New, for a client that is made of the endpoint and the credentials
unfoldable pub new : {S : Type 0} → DavClient S → Bytes → Webdav S
new client prefix = record { client = client; prefix = trim_slash prefix }

-- isNotFound; an *os.PathError that holds os.ErrNotExist is one by errors.Is already
unfoldable pub is_not_found : CallError → Bool
is_not_found e =
    e.not_exist || contains e.message (codes "404") || contains e.message (codes "Not Found")

-- the parts of repoPrefix: the configured prefix and that of the context, where they are not empty
abbrev pub prefix_parts : Bytes → Bytes → List Bytes
prefix_parts prefix repo =
    (if eqs prefix [] then [] else prefix ∷ []) ++ (if eqs repo [] then [] else repo ∷ [])

module _ {S : Type 0} (b : Webdav S) where
  -- repoPrefix
  unfoldable pub repo_prefix : Bytes → Bytes
  repo_prefix repo = join b'/' (prefix_parts b.prefix repo)

  -- repoDir
  unfoldable pub repo_dir : Bytes → Bytes
  repo_dir repo =
      if eqs (repo_prefix repo) [] then codes "/" else codes "/" ++ repo_prefix repo ++ codes "/"

  -- pathJoin
  unfoldable pub path_join : Bytes → List Bytes → Bytes
  path_join repo parts =
      if eqs (repo_prefix repo) []
      then codes "/" ++ join_path parts
      else codes "/" ++ repo_prefix repo ++ codes "/" ++ join_path parts

  -- blobPath
  unfoldable pub blob_path : Bytes → Bytes → Bytes → Bytes
  blob_path repo t name =
      if is_sharded t name
      then path_join repo (codes "data" ∷ take 2 name ∷ name ∷ [])
      else path_join repo (t ∷ name ∷ [])

  -- blobPathUnsharded
  unfoldable pub unsharded_path : Bytes → Bytes → Bytes
  unsharded_path repo name = path_join repo (codes "data" ∷ name ∷ [])

  unfoldable pub make_dirs : List Bytes → Program S (Unit {0})
  make_dirs [] = return tt
  make_dirs (dir ∷ dirs) = call (b.client.mkdir_all dir) >> make_dirs dirs

  abbrev pub type_dirs : Bytes → List Bytes
  type_dirs repo =
      path_join repo (codes "keys" ∷ [])
      ∷ path_join repo (codes "locks" ∷ [])
      ∷ path_join repo (codes "snapshots" ∷ [])
      ∷ path_join repo (codes "index" ∷ [])
      ∷ path_join repo (codes "data" ∷ [])
      ∷ []

  -- the second loop of CreateRepo, for the numbers from i on
  abbrev pub shard_dirs : Bytes → ℕ → ℕ → List Bytes
  shard_dirs repo zero i = []
  shard_dirs repo (suc n) i =
      path_join repo (codes "data" ∷ shard_name i ∷ []) ∷ shard_dirs repo n (i + 1)

  -- CreateRepo
  unfoldable pub create_repo : Bytes → Program S (Unit {0})
  create_repo repo = make_dirs (type_dirs repo) >> make_dirs (shard_dirs repo 256 0)

  -- DeleteRepo
  unfoldable pub delete_repo : Bytes → Program S (Unit {0})
  delete_repo repo =
      if eqs (repo_dir repo) [] || eqs (repo_dir repo) (codes "/")
      then fail other
      else call (b.client.remove_all (repo_dir repo))

  -- the answer of a call, of which "not found" is told apart
  abbrev pub answered : {A : Type 0} → Answer A → Program S A
  answered (done a) = return a
  answered (failed e) = if is_not_found e then fail not_found else fail other

  abbrev pub size_of : Info → Program S ℕ
  size_of info = return info.size

  -- StatConfig
  unfoldable pub stat_config : Bytes → Program S ℕ
  stat_config repo =
      look (b.client.stat (path_join repo (codes "config" ∷ []))) >>= answered >>= size_of

  -- GetConfig
  unfoldable pub get_config : Bytes → Program S Bytes
  get_config repo = look (b.client.read_stream (path_join repo (codes "config" ∷ []))) >>= answered

  -- SaveConfig
  unfoldable pub save_config : Bytes → Reader → Program S (Unit {0})
  save_config repo body = call (b.client.write_stream (path_join repo (codes "config" ∷ [])) body)

  -- the second attempt at a blob, at its unsharded path
  abbrev pub or_unsharded :
      {A : Type 0} → Bytes → Bytes → Bytes → (Bytes → S → Answer A) → Answer A → Program S A
  or_unsharded repo t name again (done a) = return a
  or_unsharded repo t name again (failed e) =
      if is_not_found e && is_sharded t name
      then look (again (unsharded_path repo name)) >>= answered
      else answered (failed e)

  -- StatBlob
  unfoldable pub stat_blob : Bytes → Bytes → Bytes → Program S ℕ
  stat_blob repo t name =
      look (b.client.stat (blob_path repo t name))
      >>= or_unsharded repo t name b.client.stat
      >>= size_of

  -- tryRead of GetBlob
  abbrev pub try_read : ℕ → ℕ → Bytes → S → Answer Bytes
  try_read offset count path s =
      if lt64 0 offset || lt64 0 count
      then b.client.read_stream_range path offset count s
      else b.client.read_stream path s

  -- GetBlob
  unfoldable pub get_blob : Bytes → Bytes → Bytes → ℕ → ℕ → Program S Bytes
  get_blob repo t name offset count =
      look (try_read offset count (blob_path repo t name))
      >>= or_unsharded repo t name (try_read offset count)

  -- SaveBlob
  unfoldable pub save_blob : Bytes → Bytes → Bytes → Reader → Program S (Unit {0})
  save_blob repo t name body =
      call (b.client.mkdir_all (dir_of (blob_path repo t name)))
      >> call (b.client.write_stream (blob_path repo t name) body)

  abbrev pub or_remove_unsharded : Bytes → Bytes → Bytes → Answer (Unit {0}) → Program S (Unit {0})
  or_remove_unsharded repo t name (done u) = return tt
  or_remove_unsharded repo t name (failed e) =
      if is_not_found e && is_sharded t name
      then attempt (b.client.remove (unsharded_path repo name)) >>= answered
      else answered (failed e)

  -- DeleteBlob
  unfoldable pub delete_blob : Bytes → Bytes → Bytes → Program S (Unit {0})
  delete_blob repo t name =
      attempt (b.client.remove (blob_path repo t name)) >>= or_remove_unsharded repo t name

  -- the loop of listDir
  abbrev pub files_of : List Info → List Blob
  files_of [] = []
  files_of (info ∷ entries) =
      let rest = files_of entries in
      if info.is_dir then rest else record { name = info.name; size = info.size } ∷ rest

  abbrev pub listed : Answer (List Info) → Program S (List Blob)
  listed (done entries) = return (files_of entries)
  listed (failed e) = if is_not_found e then return [] else fail other

  -- listDir
  unfoldable pub list_dir : Bytes → Program S (List Blob)
  list_dir dir = look (b.client.read_dir dir) >>= listed

  -- the loop of listShardedBlobs, for the numbers from i on
  unfoldable pub list_shards : Bytes → ℕ → ℕ → Program S (List Blob)
  list_shards dir zero i = return []
  list_shards dir (suc n) i = do
    first ← list_dir (join_path (dir ∷ shard_name i ∷ []))
    rest ← list_shards dir n (i + 1)
    return (first ++ rest)

  -- listShardedBlobs
  unfoldable pub list_sharded : Bytes → Program S (List Blob)
  list_sharded dir = do
    flat ← list_dir dir
    sharded ← list_shards dir 256 0
    return (flat ++ sharded)

  -- ListBlobs
  unfoldable pub list_blobs : Bytes → Bytes → Program S (List Blob)
  list_blobs repo t =
      let dir = path_join repo (t ∷ []) in
      if eqs t blob_data then list_sharded dir else list_dir dir
