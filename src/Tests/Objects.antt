-- ===== src/Tests/Objects.antt =====
-- Tests of internal/storage/s3.
use ts_restic_server.Common.{
  ℕ, ◌≡◌, refl, ◌≢◌, ◌∙◌, true, false, Option, none, some, List, [], ◌∷◌, arith, if◌then◌else◌,
  length, All, Bool-cases, inl, inr,
}
use ts_restic_server.Common.Int64.{lt64}
use ts_restic_server.Common.Text.{Bytes, codes, eqs, eqs_iff, has_prefix, split, join, trim_right}
use ts_restic_server.Common.Dict.{Dict, get, put, remove, get-remove}
use ts_restic_server.Common.Paths.{join_path, clean, clean_elements, base_of, split_last}
use ts_restic_server.Storage.{Reader, ok, blob_data}
use ts_restic_server.Files.{Answer, done, failed, CallError}
use ts_restic_server.Files.Program.{outcome, final}
use ts_restic_server.Rclone.{range_value}
use ts_restic_server.S3.{
  Object, Bucket, repo_prefix, prefix_path, key_of, blob_key, save_blob, get_blob, delete_pages,
  delete_repo, list_pages, list_blobs,
}
use ts_restic_server.S3.Kept.{IsLawful, delete_repo_keeps_others}

abbrev missing_key : CallError
missing_key = record { not_exist = false; no_entry = none; message = codes "NoSuchKey" }

abbrev size_answer : Option Bytes → Answer (Option ℕ)
size_answer none = failed missing_key
size_answer (some c) = done (some (length c))

abbrev content_answer : Option Bytes → Answer Bytes
content_answer none = failed missing_key
content_answer (some c) = done c

abbrev remove_keys : List Bytes → Dict Bytes → Dict Bytes
remove_keys [] s = s
remove_keys (k ∷ ks) s = remove_keys ks (remove s k)

abbrev objects_with : Bytes → Dict Bytes → List Object
objects_with prefix [] = []
objects_with prefix ((k, c) ∷ s) =
    let rest = objects_with prefix s in
    if has_prefix k prefix then record { key = k; size = some (length c) } ∷ rest else rest

-- A bucket that lists its objects in one page, and reads no ranges.
abbrev bucket : Bucket (Dict Bytes)
bucket = record {
  put_object = λ key content s. (done tt, put s key content);
  head_object = λ key s. size_answer (get s key);
  get_object = λ key range s. content_answer (get s key);
  delete_object = λ key s. (done tt, remove s key);
  delete_objects = λ keys s. (done tt, remove_keys keys s);
  pages = λ prefix s. done (objects_with prefix s) ∷ [];
  is_missing_type = λ e. false;
}

get-remove_keys :
    (keys : List Bytes) (s : Dict Bytes) (q : Bytes)
    → All (λ k. q ≢ k) keys
    → get (remove_keys keys s) q ≡ get s q
get-remove_keys [] s q h = refl
get-remove_keys (k ∷ ks) s q (n, h) =
    get-remove_keys ks (remove s k) q h ∙ ground (arith, get-remove s k q, eqs_iff k q, n)

objects_with-All :
    (prefix : Bytes) (s : Dict Bytes)
    → All (λ o. has_prefix o.key prefix ≡ true) (objects_with prefix s)
objects_with-All prefix [] = tt
objects_with-All prefix ((k, c) ∷ s) = elim (Bool-cases (has_prefix k prefix)) [
  | inl inside ↦ rw inside (inside, objects_with-All prefix s)
  | inr outside ↦ rw outside (objects_with-All prefix s)
]

bucket-IsLawful : IsLawful bucket get
bucket-IsLawful = record {
  pages_match = λ prefix s. (objects_with-All prefix s, tt);
  content-delete_objects = λ keys s q h. get-remove_keys keys s q h;
}

-- The repositories "a" and "ab".
abbrev two_repos : Dict Bytes
two_repos = (codes "a/config", codes "one") ∷ (codes "ab/config", codes "two") ∷ []

delete_repo_keeps_others_example :
    All
      (λ d. get d (codes "ab/config") ≡ some (codes "two"))
      (delete_repo bucket [] (codes "a") two_repos).0
    × (get (final (delete_repo bucket [] (codes "a")) two_repos) (codes "ab/config")
        ≡ some (codes "two"))
unfolding prefix_path repo_prefix join eqs has_prefix get
delete_repo_keeps_others_example =
    delete_repo_keeps_others bucket get bucket-IsLawful [] (codes "a") (codes "ab/config")
      (codes "two") two_repos (λ e. cc e) refl refl

deleted : get (final (delete_repo bucket [] (codes "a")) two_repos) (codes "a/config") ≡ none
unfolding delete_repo delete_pages prefix_path repo_prefix join eqs has_prefix get remove
deleted = refl

listed :
    outcome
      (list_blobs bucket [] (codes "a") (codes "keys"))
      ((codes "a/keys/ff", codes "k") ∷ two_repos)
    ≡ ok (record { name = codes "ff"; size = 1 } ∷ [])
unfolding list_blobs list_pages key_of repo_prefix join eqs has_prefix join_path clean
    clean_elements split base_of trim_right split_last
listed = refl

abbrev hello : Reader
hello = record { content = codes "hello"; fails = false }

read_back :
    outcome
      (get_blob bucket (codes "pre") (codes "a") blob_data (codes "abcd") 0 0)
      (final (save_blob bucket (codes "pre") (codes "a") blob_data (codes "abcd") hello) two_repos)
    ≡ ok (codes "hello")
unfolding save_blob get_blob blob_key key_of repo_prefix join eqs has_prefix join_path clean
    clean_elements split get put remove range_value lt64
read_back = refl
