-- ===== src/Filesystem/Removed.antt =====
-- DeleteRepo of internal/storage/filesystem/filesystem.go: it removes a directory tree, and the
-- repositories in it.
use ts_restic_server.Common.{◌≡◌, inl, inr, true, Option, none, Bool-cases, Option-cases}
use ts_restic_server.Common.Text.{Bytes}
use ts_restic_server.Storage.{ok}
use ts_restic_server.Files.{Files}
use ts_restic_server.Files.Program.{outcome, final, call-eq-ok}
use ts_restic_server.Files.Laws.{is_under, IsLawful}
use ts_restic_server.Filesystem.{Filesystem, repo_path, validate_path}
use ts_restic_server.Filesystem.Writes.{is_missing, delete_repo}

module _ {S : Type 0} (f : Files S) (content : S → Bytes → Option Bytes) (L : IsLawful f content)
    (b : Filesystem) where
  -- A DeleteRepo without error leaves no file below the directory of the repository, and so none of a
  -- repository whose prefix begins with that of this one.
  pub delete_repo-empties :
      (prefix q : Bytes) (s : S)
      → is_under (repo_path b prefix) q ≡ true
      → outcome (delete_repo f b prefix) s ≡ ok tt
      → content (final (delete_repo f b prefix) s) q ≡ none
  unfolding delete_repo
  delete_repo-empties prefix q s below gone =
      elim (Option-cases (validate_path f b (repo_path b prefix) s)) [
        | inr (e, invalid) ↦ absurd (cc (rw (invalid, outcome) at gone))
        | inl valid ↦ elim (Bool-cases (is_missing f b (f.stat (repo_path b prefix) s))) [
          | inl missing ↦ absurd (cc (rw (valid, missing, outcome) at gone))
          | inr there ↦
              rw (valid, there, final)
                (L.remove_all_done s (repo_path b prefix) q
                  (call-eq-ok (f.remove_all (repo_path b prefix)) s tt
                    (rw (valid, there, outcome) at gone))
                  below)
        ]
      ]
