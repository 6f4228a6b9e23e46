-- ===== src/Middleware/RepoPrefix/Segments.antt =====
-- What the rewritten path and the prefix are made of.
use ts_restic_server.Common.{
  ℕ, ◌≡◌, refl, ◌≢◌, ◌⊎◌, inl, inr, true, false, Option, none, some, List, [], ◌∷◌, ◌++◌, arith,
  if◌then◌else◌, any, All, Bool-cases, Option-cases, Sum-cases, ap, subst, append-nil,
}
use ts_restic_server.Common.Text.{Bytes, codes, eqs, eqs_iff, split, cons_head, join, ends_with}
use ts_restic_server.Acl.Paths.{NoSlash, IsSegment, path_of}
use ts_restic_server.Middleware.RepoPrefix.{
  slash, known_segment, invalid_byte, check_segments, split_repo_path, split_known, located,
  rewrite_path,
}

-- A segment that no backend can read as another path: not empty, no "/", not "." or "..", and
-- with no NUL byte or backslash.
pub record IsSafe (seg : Bytes) : Type 0 where
  pub segment : IsSegment seg
  pub not_here : seg ≢ codes "."
  pub not_parent : seg ≢ codes ".."
  pub clean : any invalid_byte seg ≡ false

cons_head-NoSlash :
    (c : ℕ) (ss : List Bytes) → c ≢ slash → All NoSlash ss → All NoSlash (cons_head c ss)
cons_head-NoSlash c [] n h = ((n, tt), tt)
cons_head-NoSlash c (s ∷ ss) n (p, h) = ((n, p), h)

split-NoSlash : (p : Bytes) → All NoSlash (split slash p)
unfolding split
split-NoSlash [] = (tt, tt)
split-NoSlash (c ∷ p) = ground (arith, split-NoSlash p, cons_head-NoSlash c (split slash p))

-- What a successful check of a list with a head says of the head.
check_head :
    (s : Bytes) (ss segs : List Bytes)
    → check_segments (s ∷ ss) ≡ inr segs
    → ((s ≡ []) × (check_segments ss ≡ inr segs))
      ⊎ ((later : List Bytes) × (s ≢ [])
          × (s ≢ codes ".")
          × (s ≢ codes "..")
          × (any invalid_byte s ≡ false)
          × (check_segments ss ≡ inr later)
          × (segs ≡ s ∷ later))
check_head s ss segs e = elim (Sum-cases (check_segments ss)) [
  | inl (error, failed) ↦
      unfold check_segments in inl (ground (arith, eqs_iff s []), ground (arith, eqs_iff s []))
  | inr (later, passed) ↦ elim (Bool-cases (eqs s [])) [
    | inl empty ↦ inl ((eqs_iff s []).0 empty, unfold check_segments in ground arith)
    | inr full ↦ inr (
      later,
      ground (arith, eqs_iff s []),
      unfold check_segments in ground (arith, eqs_iff s (codes ".")),
      unfold check_segments in ground (arith, eqs_iff s (codes "..")),
      unfold check_segments in ground arith,
      passed,
      unfold check_segments in ground arith,
    )
  ]
]

check_segments-IsSafe :
    (ss segs : List Bytes) → All NoSlash ss → check_segments ss ≡ inr segs → All IsSafe segs
check_segments-IsSafe [] [] h e = tt
check_segments-IsSafe [] (seg ∷ segs) h e = unfold check_segments in cc e
check_segments-IsSafe (s ∷ ss) segs (p, h) e = elim (check_head s ss segs e) [
  | inl (empty, rest) ↦ check_segments-IsSafe ss segs h rest
  | inr (later, full, not_here, not_parent, clean, rest, same) ↦ rw same (
    record { segment = (full, p); not_here = not_here; not_parent = not_parent; clean = clean },
    check_segments-IsSafe ss later h rest,
  )
]

-- Every segment that SplitRepoPath accepts is safe.
pub split_repo_path-IsSafe :
    (path : Bytes) (segs : List Bytes) → split_repo_path path ≡ inr segs → All IsSafe segs
split_repo_path-IsSafe path segs e =
    check_segments-IsSafe (split slash path) segs (split-NoSlash path) (unfold split_repo_path in e)

-- Joined segments behind a "/" are the path that they make.
pub join-path_of : (ss : List Bytes) → slash ∷ join slash ss ≡ path_of ss
unfolding join
join-path_of [] = refl
join-path_of (s ∷ []) = rw append-nil
join-path_of (s ∷ t ∷ ss) = ap (λ x. slash ∷ (s ++ x)) (join-path_of (t ∷ ss))

abbrev pub IsUnknown : Bytes → Type 0
IsUnknown seg = known_segment seg ≡ false

abbrev pub StartsKnown : List Bytes → Type 0
StartsKnown [] = ⊥
StartsKnown (seg ∷ segs) = known_segment seg ≡ true

-- `before` and `from` are the segments before and from the first known one.
abbrev pub Splits : List Bytes → Option (List Bytes × List Bytes) → Type 0
Splits segs none = All IsUnknown segs
Splits segs (some (before, from)) =
    (before ++ from ≡ segs) × All IsUnknown before × StartsKnown from

split_known-cons :
    (seg : Bytes) (segs : List Bytes)
    → Splits segs (split_known segs)
    → Splits (seg ∷ segs) (split_known (seg ∷ segs))
split_known-cons seg segs h = elim (Bool-cases (known_segment seg)) [
  | inl known ↦ unfold split_known in rw known (refl, tt, known)
  | inr unknown ↦
      unfold split_known in
      rw unknown (elim (Option-cases (split_known segs)) [
        | inl nothing ↦ rw nothing (unknown, rw nothing at h)
        | inr ((before, from), found) ↦
            let (whole, others, known) = rw found at h in
            rw found (ap (λ x. seg ∷ x) whole, (unknown, others), known)
      ])
]

split_known_lem : (segs : List Bytes) → Splits segs (split_known segs)
split_known_lem [] = unfold split_known in tt
split_known_lem (seg ∷ segs) = split_known-cons seg segs (split_known_lem segs)

-- The segments `before` make the repository prefix and the segments `from` the API path, which
-- keeps a trailing slash if it names a known segment; together they are the segments of the path.
pub record IsRewritten (path prefix api_path : Bytes) : Type 0 where
  pub before : List Bytes
  pub from : List Bytes
  pub whole : split_repo_path path ≡ inr (before ++ from)
  pub safe : All IsSafe (before ++ from)
  pub unknown : All IsUnknown before
  pub prefix_is : slash ∷ prefix ≡ path_of before
  pub api_is :
      ((from ≡ []) × (api_path ≡ codes "/"))
      ⊎ (StartsKnown from
          × (api_path ≡ path_of from ++ (if ends_with slash path then codes "/" else [])))

located-IsRewritten :
    (path : Bytes) (segs : List Bytes) (found : Option (List Bytes × List Bytes))
    → split_repo_path path ≡ inr segs
    → Splits segs found
    → IsRewritten path (located path segs found).0 (located path segs found).1
located-IsRewritten path segs none e unknown = record {
  before = segs;
  from = [];
  whole = rw append-nil e;
  safe = rw append-nil (split_repo_path-IsSafe path segs e);
  unknown = unknown;
  prefix_is = join-path_of segs;
  api_is = inl (refl, refl);
}
located-IsRewritten path segs (some (before, from)) e (whole, unknown, known) = record {
  before = before;
  from = from;
  whole = rw whole e;
  safe = rw whole (split_repo_path-IsSafe path segs e);
  unknown = unknown;
  prefix_is = join-path_of before;
  api_is =
      inr (
        known,
        ap (λ x. x ++ (if ends_with slash path then codes "/" else [])) (join-path_of from),
      );
}

-- A path that the middleware accepts is split at its first known segment: the segments before it
-- make the repository prefix, those from it on the API path, and all are safe.
pub rewrite_path-IsRewritten :
    (path prefix api_path : Bytes)
    → rewrite_path path ≡ inr (prefix, api_path)
    → IsRewritten path prefix api_path
rewrite_path-IsRewritten path prefix api_path e = elim (Sum-cases (split_repo_path path)) [
  | inl (error, failed) ↦ absurd (unfold rewrite_path in cc (rw (failed, rewrite_path) at e))
  | inr (segs, passed) ↦
      let same : located path segs (split_known segs) ≡ (prefix, api_path) =
        unfold rewrite_path in cc (rw (passed, rewrite_path) at e) in
      subst (λ x. IsRewritten path x.0 x.1) same
        (located-IsRewritten path segs (split_known segs) passed (split_known_lem segs))
]
