-- ===== src/S3.antt =====
-- internal/storage/s3/s3.go: the backend on a bucket of an S3 server. The calls of the AWS client are
-- parameters.
pub mod Kept
use ts_restic_server.Common.{
  ℕ, ◌+◌, Bool, true, false, ◌&&◌, ◌||◌, ltb, length, take, map, Option, none, some, List, [], ◌∷◌,
  ◌++◌, if◌then◌else◌,
}
use ts_restic_server.Common.Text.{Bytes, codes, eqs, contains, join}
use ts_restic_server.Common.Paths.{join_path, base_of}
use ts_restic_server.Storage.{Result, ok, err, not_found, other, Reader, Blob}
use ts_restic_server.Files.{Answer, done, failed, CallError}
use ts_restic_server.Files.Program.{Program, return, fail, call, look, ◌>>=◌, ◌>>◌}
use ts_restic_server.Filesystem.{is_sharded}
use ts_restic_server.Rclone.{range_value}
use ts_restic_server.Webdav.{prefix_parts}

-- types.Object; a nil size is `none`
pub record Object : Type 0 where
  pub key : Bytes
  pub size : Option ℕ

-- The calls of the client, on what the bucket keeps. `head_object` gives the content length, if there
-- is one, and `get_object` takes the range, empty for none. `pages` is what the calls of NextPage of a
-- paginator give for a prefix: deleting what a page has named does not change the pages behind it.
pub record Bucket (S : Type 0) : Type 0 where
  pub put_object : Bytes → Bytes → S → Answer (Unit {0}) × S
  pub head_object : Bytes → S → Answer (Option ℕ)
  pub get_object : Bytes → Bytes → S → Answer Bytes
  pub delete_object : Bytes → S → Answer (Unit {0}) × S
  pub delete_objects : List Bytes → S → Answer (Unit {0}) × S
  pub pages : Bytes → S → List (Answer (List Object))
  -- errors.As for *types.NoSuchKey and *types.NotFound
  pub is_missing_type : CallError → Bool

-- defaultMaxBodySize, 256 << 20
abbrev pub max_body_size : ℕ
max_body_size = 268435456

module _ {S : Type 0} (bucket : Bucket S) (prefix : Bytes) where
  -- isNotFound
  abbrev pub is_not_found : CallError → Bool
  is_not_found e =
      bucket.is_missing_type e
      || contains e.message (codes "NotFound")
      || contains e.message (codes "NoSuchKey")

  -- repoPrefix
  unfoldable pub repo_prefix : Bytes → Bytes
  repo_prefix repo = join b'/' (prefix_parts prefix repo)

  -- prefixPath
  unfoldable pub prefix_path : Bytes → Bytes
  prefix_path repo = if eqs (repo_prefix repo) [] then [] else repo_prefix repo ++ codes "/"

  -- key
  unfoldable pub key_of : Bytes → List Bytes → Bytes
  key_of repo parts =
      if eqs (repo_prefix repo) []
      then join_path parts
      else repo_prefix repo ++ codes "/" ++ join_path parts

  -- blobKey
  unfoldable pub blob_key : Bytes → Bytes → Bytes → Bytes
  blob_key repo t name =
      if is_sharded t name
      then key_of repo (codes "data" ∷ take 2 name ∷ name ∷ [])
      else key_of repo (t ∷ name ∷ [])

  -- blobKeyUnsharded
  unfoldable pub unsharded_key : Bytes → Bytes → Bytes
  unsharded_key repo name = key_of repo (codes "data" ∷ name ∷ [])

  -- CreateRepo
  unfoldable pub create_repo : Bytes → Program S (Unit {0})
  create_repo repo = call (bucket.put_object (key_of repo (codes "repo.marker" ∷ [])) [])

  abbrev pub keys_of : List Object → List Bytes
  keys_of [] = []
  keys_of (o ∷ objects) = o.key ∷ keys_of objects

  -- the body of the loop of DeleteRepo, and the rest of the loop
  abbrev pub delete_page : List Object → Program S (Unit {0}) → Program S (Unit {0})
  delete_page [] rest = rest
  delete_page (o ∷ objects) rest = call (bucket.delete_objects (keys_of (o ∷ objects))) >> rest

  -- the loop of DeleteRepo
  unfoldable pub delete_pages : List (Answer (List Object)) → Program S (Unit {0})
  delete_pages [] = return tt
  delete_pages (failed e ∷ rest) = fail other
  delete_pages (done objects ∷ rest) = delete_page objects (delete_pages rest)

  -- DeleteRepo
  unfoldable pub delete_repo : Bytes → Program S (Unit {0})
  delete_repo repo = look (bucket.pages (prefix_path repo)) >>= delete_pages

  -- the answer of a call, of which "not found" is told apart
  abbrev pub answered : {A : Type 0} → Answer A → Program S A
  answered (done a) = return a
  answered (failed e) = if is_not_found e then fail not_found else fail other

  abbrev pub length_or_zero : Option ℕ → Program S ℕ
  length_or_zero none = return 0
  length_or_zero (some n) = return n

  -- StatConfig
  unfoldable pub stat_config : Bytes → Program S ℕ
  stat_config repo =
      look (bucket.head_object (key_of repo (codes "config" ∷ []))) >>= answered >>= length_or_zero

  -- GetConfig
  unfoldable pub get_config : Bytes → Program S Bytes
  get_config repo = look (bucket.get_object (key_of repo (codes "config" ∷ [])) []) >>= answered

  -- io.ReadAll of the limited reader, the check of the size, and PutObject; a limited reader ends
  -- before the error of a reader that has more bytes than the limit
  abbrev pub put_body : Bytes → Reader → Program S (Unit {0})
  put_body key body =
      if ltb max_body_size (length body.content)
      then fail other
      else if body.fails
      then fail other
      else call (bucket.put_object key body.content)

  -- SaveConfig
  unfoldable pub save_config : Bytes → Reader → Program S (Unit {0})
  save_config repo body = put_body (key_of repo (codes "config" ∷ [])) body

  -- the second attempt at a blob, at its unsharded key
  abbrev pub or_unsharded :
      {A : Type 0} → Bytes → Bytes → Bytes → (Bytes → S → Answer A) → Answer A → Program S A
  or_unsharded repo t name again (done a) = return a
  or_unsharded repo t name again (failed e) =
      if is_not_found e && is_sharded t name
      then look (again (unsharded_key repo name)) >>= answered
      else answered (failed e)

  -- StatBlob
  unfoldable pub stat_blob : Bytes → Bytes → Bytes → Program S ℕ
  stat_blob repo t name =
      look (bucket.head_object (blob_key repo t name))
      >>= or_unsharded repo t name bucket.head_object
      >>= length_or_zero

  -- GetBlob
  unfoldable pub get_blob : Bytes → Bytes → Bytes → ℕ → ℕ → Program S Bytes
  get_blob repo t name offset count =
      look (bucket.get_object (blob_key repo t name) (range_value offset count))
      >>= or_unsharded repo t name (λ key. bucket.get_object key (range_value offset count))

  -- SaveBlob
  unfoldable pub save_blob : Bytes → Bytes → Bytes → Reader → Program S (Unit {0})
  save_blob repo t name body = put_body (blob_key repo t name) body

  -- the key that DeleteBlob deletes
  abbrev pub found_key : Bytes → Bytes → Bytes → Answer (Option ℕ) → Program S Bytes
  found_key repo t name (done n) = return (blob_key repo t name)
  found_key repo t name (failed e) =
      if is_not_found e && is_sharded t name
      then (look (bucket.head_object (unsharded_key repo name)) >>= answered >>= λ n.
          return (unsharded_key repo name))
      else if is_not_found e
      then fail not_found
      else fail other

  -- DeleteBlob
  unfoldable pub delete_blob : Bytes → Bytes → Bytes → Program S (Unit {0})
  delete_blob repo t name =
      look (bucket.head_object (blob_key repo t name)) >>= found_key repo t name >>= λ key.
      call (bucket.delete_object key)

  abbrev pub size_or_zero : Option ℕ → ℕ
  size_or_zero none = 0
  size_or_zero (some n) = n

  abbrev pub blobs_of : List Object → List Blob
  blobs_of [] = []
  blobs_of (o ∷ objects) =
      record { name = base_of o.key; size = size_or_zero o.size } ∷ blobs_of objects

  -- the loop of ListBlobs
  unfoldable pub list_pages : List (Answer (List Object)) → Program S (List Blob)
  list_pages [] = return []
  list_pages (failed e ∷ rest) = fail other
  list_pages (done objects ∷ rest) = list_pages rest >>= λ later. return (blobs_of objects ++ later)

  -- ListBlobs
  unfoldable pub list_blobs : Bytes → Bytes → Program S (List Blob)
  list_blobs repo t = look (bucket.pages (key_of repo (t ∷ []) ++ codes "/")) >>= list_pages
