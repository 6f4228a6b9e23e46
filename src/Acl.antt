-- ===== src/Acl.antt =====
-- internal/acl/acl.go: permissions, rules, and the engine that resolves a repository path.
-- A Go `Permission` is an int of which only the four declared constants are ever built.
pub mod Paths
pub mod Resolve
pub mod Grades
pub mod Accepted
use ts_restic_server.Common.{
  ℕ, suc, ◌+◌, ◌≡◌, Bool, true, false, ◌&&◌, ◌||◌, Option, none, some, List, [], ◌∷◌, ◌++◌, map,
  ◌⊎◌, inl, inr, if◌then◌else◌, ltb, leb, ◌==◌,
}
use ts_restic_server.Common.Text.{
  Bytes, codes, eqs, has_prefix, trim_left, trim_right, count_byte, to_lower,
}

pub data Permission : Type 0 where
  deny read_only append_only full_access : Permission

-- The order of the constants.
abbrev pub rank : Permission → ℕ
rank deny = 0
rank read_only = 1
rank append_only = 2
rank full_access = 3

-- Permission.String
unfoldable pub permission_string : Permission → Bytes
permission_string deny = codes "deny"
permission_string read_only = codes "read-only"
permission_string append_only = codes "append-only"
permission_string full_access = codes "full-access"

-- ParsePermission; `none` is its error.
unfoldable pub parse_permission : Bytes → Option Permission
unfolding eqs to_lower
parse_permission s =
    let l = to_lower s in
    if eqs l (codes "deny")
    then some deny
    else if eqs l (codes "read-only")
    then some read_only
    else if eqs l (codes "append-only")
    then some append_only
    else if eqs l (codes "full-access")
    then some full_access
    else none

pub data OperationType : Type 0 where
  op_read op_write op_delete : OperationType

pub record Rule : Type 0 where
  pub paths : List Bytes
  pub identities : List Bytes
  pub permission : Permission

pub record Engine : Type 0 where
  pub default_perm : Permission
  pub rules : List Rule

abbrev pub slash : ℕ
slash = b'/'

-- normalizePath
unfoldable pub normalize_path : Bytes → Bytes
unfolding eqs has_prefix trim_right
normalize_path p =
    if eqs p [] || eqs p (codes "/")
    then codes "/"
    else trim_right slash (if has_prefix p (codes "/") then p else slash ∷ p)

-- segmentCount
unfoldable pub segment_count : Bytes → ℕ
unfolding eqs trim_left trim_right count_byte
segment_count p =
    let t = trim_right slash (trim_left slash p) in if eqs t [] then 0 else count_byte slash t + 1

-- matchPath; its pair (depth, ok) is `some depth` where ok holds.
unfoldable pub match_path : Bytes → Bytes → Option ℕ
match_path rule_path req_path =
    if eqs rule_path (codes "/")
    then some 0
    else if eqs req_path rule_path
    then some (segment_count rule_path)
    else if has_prefix req_path (rule_path ++ codes "/")
    then some (segment_count rule_path)
    else none

-- the inner loop of matchIdentity
listed : Bytes → List Bytes → Bool
unfolding eqs
listed ri [] = false
listed ri (id ∷ ids) = if eqs ri id then true else listed ri ids

-- matchIdentity
unfoldable pub match_identity : List Bytes → List Bytes → Bool
unfolding eqs listed
match_identity [] ids = false
match_identity (ri ∷ ris) ids =
    if eqs ri (codes "*") then true else if listed ri ids then true else match_identity ris ids

pub data NewError : Type 0 where
  paths_empty identities_empty : ℕ → NewError

abbrev pub is_empty {ℓ} : {A : Type ℓ} → List A → Bool
is_empty [] = true
is_empty (_ ∷ _) = false

abbrev pub normalize_rule : Rule → Rule
normalize_rule r = record r { paths = map normalize_path r.paths }

-- the loop of `New`, from rule `i` on: each rule is checked, then its paths are normalized
check_rules : ℕ → List Rule → NewError ⊎ List Rule
check_rules i [] = inr []
check_rules i (r ∷ rs) =
    let rest = check_rules (i + 1) rs in
    if is_empty r.paths
    then inl (paths_empty i)
    else if is_empty r.identities
    then inl (identities_empty i)
    else elim rest [ inl e ↦ inl e | inr done ↦ inr (normalize_rule r ∷ done) ]

-- New
unfoldable pub new : Permission → List Rule → NewError ⊎ Engine
unfolding check_rules normalize_path
new default_perm rules = elim (check_rules 0 rules) [
  | inl e ↦ inl e
  | inr done ↦ inr (record { default_perm = default_perm; rules = done })
]

-- The variables of `Resolve`: bestDepth = -1 with no permissions, or bestDepth with permsAtBest,
-- which then has a first element.
pub data Best : Type 0 where
  unmatched : Best
  matched : ℕ → Permission → List Permission → Best

-- the body of the inner loop, for a path that matched at `depth`
abbrev pub consider : Permission → ℕ → Best → Best
consider p depth unmatched = matched depth p []
consider p depth (matched best first rest) =
    if ltb best depth
    then matched depth p []
    else if depth == best
    then matched best first (rest ++ p ∷ [])
    else matched best first rest

abbrev pub consider_path : Permission → Option ℕ → Best → Best
consider_path p none b = b
consider_path p (some depth) b = consider p depth b

-- the loop over the paths of one rule
scan_paths : Permission → Bytes → List Bytes → Best → Best
unfolding match_path
scan_paths p repo_path [] b = b
scan_paths p repo_path (rule_path ∷ rest) b =
    scan_paths p repo_path rest (consider_path p (match_path rule_path repo_path) b)

-- the loop over the rules
scan_rules : List Bytes → Bytes → List Rule → Best → Best
unfolding scan_paths match_identity
scan_rules ids repo_path [] b = b
scan_rules ids repo_path (r ∷ rs) b =
    scan_rules ids repo_path rs
      (if match_identity r.identities ids then scan_paths r.permission repo_path r.paths b else b)

-- the loop over permsAtBest[1:]
unfoldable pub highest_of : Permission → List Permission → Permission
highest_of highest [] = highest
highest_of highest (deny ∷ ps) = deny
highest_of highest (p ∷ ps) = highest_of (if ltb (rank highest) (rank p) then p else highest) ps

-- what `Resolve` does after the loops; its last test returns Deny for Deny
abbrev pub verdict : Permission → Best → Permission
verdict default_perm unmatched = default_perm
verdict default_perm (matched best first rest) = highest_of first rest

-- Engine.Resolve
unfoldable pub resolve : Engine → List Bytes → Bytes → Permission
unfolding scan_rules normalize_path highest_of
resolve e ids repo_path =
    verdict e.default_perm (scan_rules ids (normalize_path repo_path) e.rules unmatched)

-- Engine.Allowed
unfoldable pub allowed : Engine → List Bytes → Bytes → OperationType → Bool
unfolding resolve
allowed e ids repo_path op_read = leb (rank read_only) (rank (resolve e ids repo_path))
allowed e ids repo_path op_write = leb (rank append_only) (rank (resolve e ids repo_path))
allowed e ids repo_path op_delete = leb (rank full_access) (rank (resolve e ids repo_path))
