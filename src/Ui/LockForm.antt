-- ===== src/Ui/LockForm.antt =====
-- The lock form of a repository's page, sent back to the web interface.
use ts_restic_server.Common.{
  ℕ, ◌≡◌, refl, sym, inl, inr, true, some, List, ◌++◌, Bool, ◌&&◌, ◌||◌, ◌==◌, leb, all, any,
  Bool-cases, Option-cases, Sum-cases,
}
use ts_restic_server.Common.Text.{Bytes, codes, eqs, join}
use ts_restic_server.Storage.{Blob}
use ts_restic_server.Middleware.RepoPrefix.{slash, split_repo_path}
use ts_restic_server.Middleware.RepoPrefix.Segments.{split_repo_path-IsSafe}
use ts_restic_server.Middleware.RepoPrefix.Joined.{split_repo_path-join}
use ts_restic_server.Ui.{
  UiHandler, UiRequest, DetailPage, detail_page, rendered, repo_param, repo_locks, detail_data,
  repo_detail,
}
use ts_restic_server.Ui.Routes.{delete_lock_suffix}

-- A path that is accepted is normal: it is accepted as itself.
pub repo_param-normal : (p q : Bytes) → repo_param p ≡ some q → repo_param q ≡ some q
unfolding repo_param
repo_param-normal p q h = elim (Sum-cases (split_repo_path p)) [
  | inl (e, rejected) ↦ absurd (let k = rw (rejected, repo_param) at h in cc)
  | inr (segs, accepted) ↦
      let k : join slash segs ≡ q = (let k = rw (accepted, repo_param) at h in cc) in
      rw (sym k, repo_param, split_repo_path-join segs (split_repo_path-IsSafe p segs accepted))
        refl
]

-- The request that the form of a page sends for a lock, with the cookie that was set with the page.
-- `form_param` is what the route's parameter is of a request for the action of the form of a
-- repository: html/template escapes the action, the browser resolves it, and echo decodes the path.
abbrev pub posted : (Bytes → Bytes) → DetailPage → Bytes → UiRequest → UiRequest
posted form_param page lock_name c = record c {
  param = form_param page.repo_path;
  lock_name = lock_name;
  form_token = page.csrf_token;
  cookie = some page.csrf_cookie;
}

-- A character that a URL path has unescaped: a letter, a digit, '-', '.', '_', '~', or the slash.
abbrev pub is_plain : ℕ → Bool
is_plain c =
    (leb b'a' c && leb c b'z')
    || (leb b'A' c && leb c b'Z')
    || (leb b'0' c && leb c b'9')
    || any (λ d. c == d) (codes "-._~/")

-- What is documented of the three: the plain characters stay as they are.
abbrev pub IsPlainKept : (Bytes → Bytes) → Type 0
IsPlainKept form_param =
    (path : Bytes) → all is_plain path ≡ true → form_param path ≡ path ++ delete_lock_suffix

module _ {S : Type 0} (h : UiHandler S) where
  -- What a page that was rendered has of its request.
  pub repo_detail-page :
      (c : UiRequest) (s : S) (page : DetailPage)
      → (repo_detail h c s).0 ≡ rendered (detail_page page)
      → (q : Bytes) × (locks : List Blob) × (repo_param c.param ≡ some q)
        × (detail_data h c q locks s ≡ page)
  unfolding repo_detail
  repo_detail-page c s page e = elim (Option-cases (repo_param c.param)) [
    | inl rejected ↦ absurd (let k = rw (rejected, repo_detail) at e in cc)
    | inr (q, accepted) ↦ elim (Option-cases (repo_locks h q s)) [
      | inl stopped ↦ absurd (let k = rw (accepted, stopped, repo_detail) at e in cc)
      | inr (locks, listed) ↦ elim (Bool-cases (any (eqs (codes "repo_detail.html")) h.templates)) [
        | inl found ↦
            let k = rw (accepted, listed, found, repo_detail) at e in (q, locks, accepted, cc)
        | inr lost ↦ absurd (let k = rw (accepted, listed, lost, repo_detail) at e in cc)
      ]
    ]
  ]
