-- ===== src/Middleware/RepoPrefix/Joined.antt =====
-- Paths that are joined from safe segments: SplitRepoPath takes them apart into these segments.
use ts_restic_server.Common.{
  ◌≡◌, refl, ap, ◌∙◌, sym, inr, List, [], ◌∷◌, ◌++◌, All, arith, append-nil,
}
use ts_restic_server.Common.Text.{Bytes, codes, eqs, eqs_iff, split, cons_head, join}
use ts_restic_server.Acl.Paths.{NoSlash, body}
use ts_restic_server.Middleware.RepoPrefix.{slash, check_segments, split_repo_path}
use ts_restic_server.Middleware.RepoPrefix.Segments.{IsSafe}

split-body :
    (s : Bytes) (ss : List Bytes) → NoSlash s → All NoSlash ss → split slash (s ++ body ss) ≡ s ∷ ss
unfolding split
split-body [] [] h k = refl
split-body [] (t ∷ ts) h (p, k) = ap (λ x. [] ∷ x) (split-body t ts p k)
split-body (c ∷ s) ss (n, h) k = ground (arith, n, ap (λ x. cons_head c x) (split-body s ss h k))

All-NoSlash : (ss : List Bytes) → All IsSafe ss → All NoSlash ss
All-NoSlash [] h = tt
All-NoSlash (s ∷ ss) (p, h) = (p.segment.1, All-NoSlash ss h)

-- Safe segments pass the check as they are.
check_segments-safe : (ss : List Bytes) → All IsSafe ss → check_segments ss ≡ inr ss
unfolding check_segments
check_segments-safe [] h = refl
check_segments-safe (s ∷ ss) (p, h) = rw (check_segments-safe ss h) (
    ground (
      arith,
      p.segment.0,
      p.not_here,
      p.not_parent,
      p.clean,
      eqs_iff s [],
      eqs_iff s (codes "."),
      eqs_iff s (codes ".."),
    ))

pub split_repo_path-body :
    (s : Bytes) (ss : List Bytes)
    → All IsSafe (s ∷ ss)
    → split_repo_path (body (s ∷ ss)) ≡ inr (s ∷ ss)
unfolding split_repo_path check_segments split
split_repo_path-body s ss (p, h) =
    rw (split-body s ss p.segment.1 (All-NoSlash ss h)) (check_segments-safe (s ∷ ss) (p, h))

-- The text behind the first "/" of a path.
pub body-join : (s : Bytes) (ss : List Bytes) → body (s ∷ ss) ≡ slash ∷ join slash (s ∷ ss)
unfolding join
body-join s [] = rw append-nil refl
body-join s (t ∷ ss) = ap (λ x. slash ∷ (s ++ x)) (body-join t ss)

-- A slash in front makes no difference.
split_repo_path-slash : (p : Bytes) → split_repo_path (slash ∷ p) ≡ split_repo_path p
unfolding split_repo_path split check_segments eqs
split_repo_path-slash p = refl

-- Safe segments, joined, are taken apart again.
pub split_repo_path-join :
    (segs : List Bytes) → All IsSafe segs → split_repo_path (join slash segs) ≡ inr segs
split_repo_path-join [] h = unfold split_repo_path split check_segments join eqs in refl
split_repo_path-join (s ∷ ss) h =
    sym (split_repo_path-slash (join slash (s ∷ ss)))
    ∙ ap split_repo_path (sym (body-join s ss))
    ∙ split_repo_path-body s ss h
