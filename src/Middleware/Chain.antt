-- ===== src/Middleware/Chain.antt =====
-- The repository prefix and the access check together, as RegisterRoutes composes them.
use ts_restic_server.Common.{
  ℕ, ◌≡◌, refl, ◌⊎◌, inl, inr, Bool, true, false, ◌&&◌, not, none, some, List, [], ◌∷◌, ◌++◌, arith,
  if◌then◌else◌, All, Bool-cases, Sum-cases, length, append_assoc, All-of_append,
}
use ts_restic_server.Common.Text.{Bytes, codes, eqs_iff, has_prefix, ends_with}
use ts_restic_server.Acl.{op_delete, Engine, normalize_path, match_path}
use ts_restic_server.Acl.Paths.{
  IsSegment, body, path_of, is_prefix, match_path-path_of, normalize_path-path_of,
}
use ts_restic_server.Http.{Request, Reply, reply, panicked, Handler}
use ts_restic_server.ApiError
use ts_restic_server.Middleware.RepoPrefix.{
  slash, known_segment, rewrite_path, repo_prefix, system_prefix,
}
use ts_restic_server.Middleware.RepoPrefix.Segments.{
  IsSafe, IsRewritten, StartsKnown, rewrite_path-IsRewritten,
}
use ts_restic_server.Middleware.Access.{
  acl, permits, operation, is_write, acl_denied_response, repo_path,
}

-- A rewritten path is never one of the system routes that bypass the access check.
known-not-system :
    (seg : Bytes) (rest : Bytes)
    → known_segment seg ≡ true
    → has_prefix (slash ∷ (seg ++ rest)) system_prefix ≡ false
unfolding known_segment has_prefix
known-not-system seg rest known = ground (
  arith,
  eqs_iff seg (codes "config"),
  eqs_iff seg (codes "data"),
  eqs_iff seg (codes "keys"),
  eqs_iff seg (codes "locks"),
  eqs_iff seg (codes "snapshots"),
  eqs_iff seg (codes "index"),
)

api_path-not-system :
    (path prefix api_path : Bytes)
    → IsRewritten path prefix api_path
    → has_prefix api_path system_prefix ≡ false
api_path-not-system path prefix api_path h = elim h.api_is [
  | inl (_, root) ↦ rw root (unfold has_prefix in refl)
  | inr (known, same) ↦ rw same (below_known h.from known)
]
  where
    trailing : Bytes
    trailing = if ends_with slash path then codes "/" else []

    below_known :
        (from : List Bytes)
        → StartsKnown from
        → has_prefix (path_of from ++ trailing) system_prefix ≡ false
    below_known [] known = absurd known
    below_known (seg ∷ segs) known =
        rw append_assoc (known-not-system seg (body segs ++ trailing) known)

-- On the repository path of an accepted request the engine's match is the prefix test on segments.
pub match_path-repo_path :
    (path prefix api_path : Bytes) (rule : List Bytes)
    → (h : IsRewritten path prefix api_path) → All IsSegment rule
    → match_path (path_of rule) (normalize_path (slash ∷ prefix))
      ≡ (if is_prefix rule h.before then some (length rule) else none)
match_path-repo_path path prefix api_path rule h segments =
    let segs = segments_of h.before (All-of_append IsSafe h.before h.from h.safe).0 in
    rw (
      h.prefix_is,
      normalize_path-path_of h.before segs,
      match_path-path_of rule h.before segments segs,
    )
  where
    segments_of : (ss : List Bytes) → All IsSafe ss → All IsSegment ss
    segments_of [] h = tt
    segments_of (s ∷ ss) (p, h) = (p.segment, segments_of ss h)

abbrev pub status_of : Reply → ℕ
status_of (reply r) = r.status
status_of panicked = 500

-- The request that the checks hand on.
abbrev pub handed_on : Engine → Request → Bytes → Bytes → Request
handed_on e c prefix api_path =
    let c' = record c { repo_prefix = prefix; path = api_path } in
    if is_write (operation c') && not (permits e c' op_delete)
    then record c' { append_only = true }
    else c'

-- A request is refused with the state unchanged, or handed on with a permitted operation on the
-- repository path that its URL names.
pub record IsHandedOn {S : Type 0} (e : Engine) (next : Handler S) (c : Request) (s : S)
    (result : Reply × S) : Type 0 where
  pub prefix : Bytes
  pub api_path : Bytes
  pub rewritten : IsRewritten c.path prefix api_path
  pub permitted :
      permits e
        (record c { repo_prefix = prefix; path = api_path })
        (operation (record c { repo_prefix = prefix; path = api_path }))
      ≡ true
  pub same : result ≡ next (handed_on e c prefix api_path) s

abbrev pub IsRefused : {S : Type 0} → S → Reply × S → Type 0
IsRefused s result = ((status_of result.0 ≡ 400) ⊎ (status_of result.0 ≡ 403)) × (result.1 ≡ s)

module _ {S : Type 0} (e : Engine) (verbose metrics_acl : Bool) (next : Handler S) where
  acl_decides :
      (c : Request) (s : S)
      → has_prefix c.path system_prefix ≡ false
      → ((permits e c (operation c) ≡ false)
          × (acl (some e) verbose metrics_acl next c s
              ≡ (acl_denied_response c (repo_path c) (operation c) verbose, s)))
        ⊎ ((permits e c (operation c) ≡ true)
            × (acl (some e) verbose metrics_acl next c s
                ≡ next (handed_on e c c.repo_prefix c.path) s))
  acl_decides c s ordinary = elim (Bool-cases (permits e c (operation c))) [
    | inl permitted ↦ inr (
      permitted,
      unfold acl in
          rw (ordinary, permitted, acl)
            (elim (Bool-cases (is_write (operation c) && not (permits e c op_delete))) [
              | inl marked ↦ rw marked
              | inr plain ↦ rw plain
            ]),
    )
    | inr denied ↦ inl (denied, unfold acl in rw (ordinary, denied, acl))
  ]

  denied_status :
      (c : Request) → status_of (acl_denied_response c (repo_path c) (operation c) verbose) ≡ 403
  denied_status c = unfold acl_denied_response ApiError.with_data in ground arith

  -- Outside the system routes, a request reaches the handler only rewritten to its API path, with
  -- an operation that the engine permits on its repository path; any other request is answered
  -- with 400 or 403 and changes nothing.
  pub guarded :
      (c : Request) (s : S)
      → has_prefix c.path system_prefix ≡ false
      → IsRefused s (repo_prefix (acl (some e) verbose metrics_acl next) c s)
        ⊎ IsHandedOn e next c s (repo_prefix (acl (some e) verbose metrics_acl next) c s)
  guarded c s ordinary = elim (Sum-cases (rewrite_path c.path)) [
    | inl (error, rejected) ↦
        unfold repo_prefix ApiError.new in
        inl (rw (ordinary, rejected, repo_prefix) (inl refl, refl))
    | inr ((prefix, api_path), accepted) ↦
        let c' = record c { repo_prefix = prefix; path = api_path } in
        let h = rewrite_path-IsRewritten c.path prefix api_path accepted in
        elim (acl_decides c' s (api_path-not-system c.path prefix api_path h)) [
          | inl (denied, answer) ↦
              unfold repo_prefix in
              inl (rw (ordinary, accepted, repo_prefix) (rw answer (inr (denied_status c'), refl)))
          | inr (permitted, answer) ↦ inr (record {
            prefix = prefix;
            api_path = api_path;
            rewritten = h;
            permitted = permitted;
            same = unfold repo_prefix in rw (ordinary, accepted, repo_prefix) answer;
          })
        ]
  ]
