-- ===== src/S3/Kept.antt =====
-- DeleteRepo of internal/storage/s3/s3.go: what it leaves in the bucket.
use ts_restic_server.Common.{
  ◌≡◌, refl, ◌≢◌, true, false, Option, some, List, [], ◌∷◌, ◌++◌, All, ◌∙◌, ap, Bool-cases, inl,
  inr,
}
use ts_restic_server.Common.Text.{Bytes, codes, eqs, eqs_iff, has_prefix}
use ts_restic_server.Storage.{ok, err, other}
use ts_restic_server.Files.{Answer, done, failed}
use ts_restic_server.Files.Program.{
  Program, call, final, Keeps, Keeps-bind, Keeps-call, Keeps-return,
}
use ts_restic_server.S3.{
  repo_prefix, Object, Bucket, prefix_path, keys_of, delete_page, delete_pages, delete_repo,
}

abbrev HasPrefix : Bytes → Bytes → Type 0
HasPrefix prefix key = has_prefix key prefix ≡ true

-- Every key of the page begins with the prefix.
abbrev pub IsPageOf : Bytes → Answer (List Object) → Type 0
IsPageOf prefix (done objects) = All (λ o. HasPrefix prefix o.key) objects
IsPageOf prefix (failed e) = Unit

-- What DeleteRepo relies on of the server: a listing has only keys that begin with its prefix, and a
-- deletion leaves the objects alone that it does not name.
pub record IsLawful {S : Type 0} (bucket : Bucket S) (content : S → Bytes → Option Bytes)
    : Type 0 where
  pub pages_match : (prefix : Bytes) (s : S) → All (IsPageOf prefix) (bucket.pages prefix s)
  pub content-delete_objects :
      (keys : List Bytes) (s : S) (q : Bytes)
      → All (λ k. q ≢ k) keys
      → content (bucket.delete_objects keys s).1 q ≡ content s q

module _ {S : Type 0} (bucket : Bucket S) (content : S → Bytes → Option Bytes)
    (L : IsLawful bucket content) (prefix : Bytes) where
  keys_differ :
      (p q : Bytes) (objects : List Object)
      → has_prefix q p ≡ false
      → All (λ o. HasPrefix p o.key) objects
      → All (λ k. q ≢ k) (keys_of bucket prefix objects)
  keys_differ p q [] outside h = tt
  keys_differ p q (o ∷ objects) outside (inside, h) = (
    (λ same. cc (outside, inside, ap (λ k. has_prefix k p) same)),
    keys_differ p q objects outside h,
  )

  delete_page-Keeps :
      (p q c : Bytes) (objects : List Object) (rest : Program S (Unit {0}))
      → has_prefix q p ≡ false
      → All (λ o. HasPrefix p o.key) objects
      → Keeps (λ s. content s q ≡ some c) rest
      → Keeps (λ s. content s q ≡ some c) (delete_page bucket prefix objects rest)
  delete_page-Keeps p q c [] rest outside h k = k
  delete_page-Keeps p q c (o ∷ objects) rest outside h k =
      let keys = keys_of bucket prefix (o ∷ objects) in
      Keeps-bind (λ s. content s q ≡ some c) (call (bucket.delete_objects keys)) (λ _. rest)
        (Keeps-call (λ s. content s q ≡ some c) (bucket.delete_objects keys)
          (λ s held.
            L.content-delete_objects keys s q (keys_differ p q (o ∷ objects) outside h) ∙ held))
        (λ _. k)

  delete_pages-Keeps :
      (p q c : Bytes) (pages : List (Answer (List Object)))
      → has_prefix q p ≡ false
      → All (IsPageOf p) pages
      → Keeps (λ s. content s q ≡ some c) (delete_pages bucket prefix pages)
  unfolding delete_pages
  delete_pages-Keeps p q c [] outside h =
      Keeps-return {A = Unit {0}} (λ s. content s q ≡ some c) (ok tt)
  delete_pages-Keeps p q c (failed e ∷ pages) outside h =
      Keeps-return {A = Unit {0}} (λ s. content s q ≡ some c) (err other)
  delete_pages-Keeps p q c (done objects ∷ pages) outside (page, h) =
      delete_page-Keeps p q c objects (delete_pages bucket prefix pages) outside page
        (delete_pages-Keeps p q c pages outside h)

  prefix_path-of :
      (repo : Bytes)
      → repo_prefix bucket prefix repo ≢ []
      → prefix_path bucket prefix repo ≡ repo_prefix bucket prefix repo ++ codes "/"
  unfolding prefix_path
  prefix_path-of repo given = elim (Bool-cases (eqs (repo_prefix bucket prefix repo) [])) [
    | inl empty ↦ absurd (given ((eqs_iff (repo_prefix bucket prefix repo) []).0 empty))
    | inr full ↦ rw full refl
  ]

  -- DeleteRepo of the S3 backend, for a repository whose prefix is not empty, leaves every object whose
  -- key does not begin with that prefix and a "/", whatever fails in it and at every moment between its
  -- calls.
  pub delete_repo_keeps_others :
      (repo q c : Bytes) (s : S)
      → repo_prefix bucket prefix repo ≢ []
      → has_prefix q (repo_prefix bucket prefix repo ++ codes "/") ≡ false
      → content s q ≡ some c
      → All (λ u. content u q ≡ some c) (delete_repo bucket prefix repo s).0
        × (content (final (delete_repo bucket prefix repo) s) q ≡ some c)
  unfolding delete_repo
  delete_repo_keeps_others repo q c s given outside held =
      let p = prefix_path bucket prefix repo in
      delete_pages-Keeps p q c (bucket.pages p s) (rw (prefix_path-of repo given) outside)
        (L.pages_match p s) s held
