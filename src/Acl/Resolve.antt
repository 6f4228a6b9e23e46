-- ===== src/Acl/Resolve.antt =====
-- Engine.Resolve of internal/acl/acl.go against a description of the cascade: the permissions that
-- the matching rules grant, and of these the ones at the greatest depth.
use ts_restic_server.Common.{
  ℕ, ◌<◌, ◌≡◌, refl, Bool, true, false, Option, none, some, List, [], ◌∷◌, ◌++◌, arith,
  if◌then◌else◌, any, ◌==◌, append_assoc, append-nil, max, ltb, ltb→lt, ==_iff, Bool-cases, inl,
  inr,
}
use ts_restic_server.Common.Text.{Bytes}
use ts_restic_server.Acl.{
  Permission, deny, rank, Rule, Engine, normalize_path, match_path, match_identity, Best, unmatched,
  matched, consider, consider_path, scan_paths, scan_rules, highest_of, verdict, resolve,
}

-- A depth and the permission that is granted there.
abbrev pub Grant : Type 0
Grant = ℕ × Permission

abbrev pub path_grant : Permission → Option ℕ → List Grant → List Grant
path_grant p none gs = gs
path_grant p (some d) gs = (d, p) ∷ gs

abbrev pub path_grants : Permission → Bytes → List Bytes → List Grant
path_grants p path [] = []
path_grants p path (r ∷ rs) = path_grant p (match_path r path) (path_grants p path rs)

-- What the matching rules grant, in their order.
abbrev pub grants : List Bytes → Bytes → List Rule → List Grant
grants ids path [] = []
grants ids path (r ∷ rs) =
    (if match_identity r.identities ids then path_grants r.permission path r.paths else [])
    ++ grants ids path rs

abbrev pub deepest : List Grant → ℕ
deepest [] = 0
deepest ((d, p) ∷ gs) = max d (deepest gs)

-- The permissions granted at one depth.
abbrev pub level : ℕ → List Grant → List Permission
level n [] = []
level n ((d, p) ∷ gs) = if d == n then p ∷ level n gs else level n gs

abbrev fold_grants : List Grant → Best → Best
fold_grants [] b = b
fold_grants ((d, p) ∷ gs) b = fold_grants gs (consider p d b)

fold_grants-append :
    (gs hs : List Grant) (b : Best) → fold_grants (gs ++ hs) b ≡ fold_grants hs (fold_grants gs b)
fold_grants-append [] hs b = refl
fold_grants-append ((d, p) ∷ gs) hs b = fold_grants-append gs hs (consider p d b)

scan_paths-eq-fold :
    (p : Permission) (path : Bytes) (rs : List Bytes) (b : Best)
    → scan_paths p path rs b ≡ fold_grants (path_grants p path rs) b
unfolding scan_paths
scan_paths-eq-fold p path [] b = refl
scan_paths-eq-fold p path (r ∷ rs) b =
    ground (arith, scan_paths-eq-fold p path rs (consider_path p (match_path r path) b))

scan_rules-eq-fold :
    (ids : List Bytes) (path : Bytes) (rs : List Rule) (b : Best)
    → scan_rules ids path rs b ≡ fold_grants (grants ids path rs) b
unfolding scan_rules
scan_rules-eq-fold ids path [] b = refl
scan_rules-eq-fold ids path (r ∷ rs) b = elim (Bool-cases (match_identity r.identities ids)) [
  | inl yes_match ↦ rw yes_match (
      rw (
        scan_paths-eq-fold r.permission path r.paths b,
        scan_rules-eq-fold ids path rs (fold_grants (path_grants r.permission path r.paths) b),
        fold_grants-append (path_grants r.permission path r.paths) (grants ids path rs) b,
      ))
  | inr no_match ↦ rw no_match (scan_rules-eq-fold ids path rs b)
]

-- The variables of the loop after the grants `gs`.
abbrev Tracks : List Grant → Best → Type 0
Tracks gs unmatched = gs ≡ []
Tracks gs (matched d p ps) = (d ≡ deepest gs) × (level d gs ≡ p ∷ ps)

deepest-concat :
    (gs : List Grant) (d : ℕ) (p : Permission) → deepest (gs ++ (d, p) ∷ []) ≡ max (deepest gs) d
deepest-concat [] d p = omega arith
deepest-concat ((e, q) ∷ gs) d p = omega (arith, deepest-concat gs d p)

level-concat :
    (n : ℕ) (gs : List Grant) (d : ℕ) (p : Permission)
    → level n (gs ++ (d, p) ∷ []) ≡ level n gs ++ (if d == n then p ∷ [] else [])
level-concat n [] d p = refl
level-concat n ((e, q) ∷ gs) d p = ground (arith, level-concat n gs d p)

level_above : (n : ℕ) (gs : List Grant) → deepest gs < n → level n gs ≡ []
level_above n [] h = refl
level_above n ((e, q) ∷ gs) h = ground (arith, level_above n gs)

consider-Tracks :
    (gs : List Grant) (b : Best) (d : ℕ) (p : Permission)
    → Tracks gs b
    → Tracks (gs ++ (d, p) ∷ []) (consider p d b)
consider-Tracks gs unmatched d p h = rw h (ground arith)
consider-Tracks gs (matched e q qs) d p (same, here) = elim (Bool-cases (ltb e d)) [
  | inl deeper ↦ rw deeper (
    omega (arith, deepest-concat gs d p, ltb→lt e d deeper),
    rw (
      level-concat d gs d p,
      level_above d gs (omega (arith, ltb→lt e d deeper)),
      (==_iff d d).1 refl,
    ),
  )
  | inr below ↦ elim (Bool-cases (d == e)) [
    | inl equal ↦
        rw (below, equal)
          (ground (arith, deepest-concat gs d p), rw (level-concat e gs d p, equal, here))
    | inr above ↦
        rw (below, above)
          (
            ground (arith, deepest-concat gs d p),
            rw (level-concat e gs d p, above, append-nil) here,
          )
  ]
]

fold_grants-Tracks :
    (gs : List Grant) (b : Best) (hs : List Grant)
    → Tracks gs b
    → Tracks (gs ++ hs) (fold_grants hs b)
fold_grants-Tracks gs b [] h = rw append-nil h
fold_grants-Tracks gs b ((d, p) ∷ hs) h =
    rw append_assoc at
      (fold_grants-Tracks (gs ++ (d, p) ∷ []) (consider p d b) hs (consider-Tracks gs b d p h))

-- The default where nothing is granted, Deny where a permission other than the first of the level
-- is Deny, and the highest otherwise.
abbrev pub is_deny : Permission → Bool
is_deny deny = true
is_deny _ = false

abbrev pub highest_rank : List Permission → ℕ
highest_rank [] = 0
highest_rank (p ∷ ps) = max (rank p) (highest_rank ps)

abbrev pub outcome : Permission → List Permission → ℕ
outcome default_perm [] = rank default_perm
outcome default_perm (p ∷ ps) = if any is_deny ps then 0 else highest_rank (p ∷ ps)

abbrev higher : Permission → Permission → Permission
higher p q = if ltb (rank p) (rank q) then q else p

rank-higher : (p q : Permission) → rank (higher p q) ≡ max (rank p) (rank q)
rank-higher p q = ground arith

highest_of-cons :
    (p q : Permission) (ps : List Permission)
    → highest_of p (q ∷ ps) ≡ (if is_deny q then deny else highest_of (higher p q) ps)
unfolding highest_of
highest_of-cons p deny ps = refl
highest_of-cons p q ps = refl

rank-highest_of :
    (p : Permission) (ps : List Permission)
    → rank (highest_of p ps) ≡ (if any is_deny ps then 0 else highest_rank (p ∷ ps))
rank-highest_of p [] = unfold highest_of in omega arith
rank-highest_of p (q ∷ ps) = elim (Bool-cases (is_deny q)) [
  | inl denied ↦ rw (highest_of-cons p q ps, denied)
  | inr other ↦
      rw (highest_of-cons p q ps, other, rank-highest_of (higher p q) ps, rank-higher p q)
        (ground arith)
]

-- the grants of an engine at the greatest depth
abbrev pub strongest : Engine → List Bytes → Bytes → List Permission
strongest e ids path = let gs = grants ids (normalize_path path) e.rules in level (deepest gs) gs

verdict-Tracks :
    (default_perm : Permission) (gs : List Grant) (b : Best)
    → Tracks gs b
    → rank (verdict default_perm b) ≡ outcome default_perm (level (deepest gs) gs)
verdict-Tracks default_perm gs unmatched h = rw h
verdict-Tracks default_perm gs (matched d p ps) (same, here) =
    rw (← same, here) (rank-highest_of p ps)

-- The engine's answer is the cascade over what the matching rules grant at the greatest depth: the
-- default if nothing is granted, Deny if a grant after the first is Deny, else the highest grant.
pub resolve_lem :
    (e : Engine) (ids : List Bytes) (path : Bytes)
    → rank (resolve e ids path) ≡ outcome e.default_perm (strongest e ids path)
unfolding resolve
resolve_lem e ids path =
    let gs = grants ids (normalize_path path) e.rules in
    rw (scan_rules-eq-fold ids (normalize_path path) e.rules unmatched) (
      verdict-Tracks e.default_perm gs (fold_grants gs unmatched)
        (fold_grants-Tracks [] unmatched gs refl))

-- Deny listed before the other grants of its level, none of them Deny, is overridden by them.
pub resolve_deny_first :
    (e : Engine) (ids : List Bytes) (path : Bytes) (q : Permission) (qs : List Permission)
    → strongest e ids path ≡ deny ∷ q ∷ qs
    → any is_deny (q ∷ qs) ≡ false
    → 0 < rank (resolve e ids path)
resolve_deny_first e ids path q qs level allowing =
    rw (resolve_lem e ids path, level, allowing) (ground arith)
