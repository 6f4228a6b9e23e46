-- ===== src/Middleware/RepoPrefix.antt =====
-- internal/middleware/repoprefix.go: the repository prefix is split off the URL path, which is
-- rewritten to what follows it.
pub mod Segments
pub mod Joined
use ts_restic_server.Common.{
  ℕ, Bool, true, false, ◌||◌, Option, none, some, List, [], ◌∷◌, ◌++◌, any, ◌==◌, if◌then◌else◌,
  ◌⊎◌, inl, inr,
}
use ts_restic_server.Common.Text.{Bytes, codes, eqs, has_prefix, ends_with, split, join}
use ts_restic_server.Http.{Handler}
use ts_restic_server.ApiError

abbrev pub slash : ℕ
slash = b'/'

-- knownSegments[seg]
unfoldable pub known_segment : Bytes → Bool
known_segment seg =
    eqs seg (codes "config")
    || eqs seg (codes "data")
    || eqs seg (codes "keys")
    || eqs seg (codes "locks")
    || eqs seg (codes "snapshots")
    || eqs seg (codes "index")

pub data PathError : Type 0 where
  traversal invalid_characters : PathError

-- strings.ContainsAny(seg, "\x00\\")
abbrev pub invalid_byte : ℕ → Bool
invalid_byte c = c == 0 || c == 92

-- the loop of SplitRepoPath
unfoldable pub check_segments : List Bytes → PathError ⊎ List Bytes
unfolding eqs
check_segments [] = inr []
check_segments (seg ∷ rest) =
    let later = check_segments rest in
    if eqs seg []
    then later
    else if eqs seg (codes ".") || eqs seg (codes "..")
    then inl traversal
    else if any invalid_byte seg
    then inl invalid_characters
    else elim later [ inl e ↦ inl e | inr segs ↦ inr (seg ∷ segs) ]

-- SplitRepoPath
unfoldable pub split_repo_path : Bytes → PathError ⊎ List Bytes
unfolding check_segments split
split_repo_path p = check_segments (split slash p)

-- the segments before the first known one, and the rest; `none` if no segment is known
unfoldable pub split_known : List Bytes → Option (List Bytes × List Bytes)
split_known [] = none
split_known (seg ∷ segs) =
    let later = split_known segs in
    if known_segment seg
    then some ([], seg ∷ segs)
    else elim later [ none ↦ none | some (before, from) ↦ some (seg ∷ before, from) ]

-- the prefix and the rewritten path
abbrev pub located : Bytes → List Bytes → Option (List Bytes × List Bytes) → Bytes × Bytes
located path segs none = (join slash segs, codes "/")
located path segs (some (before, from)) = (
  join slash before,
  slash ∷ (join slash from ++ (if ends_with slash path then codes "/" else [])),
)

unfoldable pub rewrite_path : Bytes → PathError ⊎ (Bytes × Bytes)
rewrite_path path = elim (split_repo_path path) [
  | inl e ↦ inl e
  | inr segs ↦ inr (located path segs (split_known segs))
]

abbrev pub path_error_message : PathError → Bytes
path_error_message traversal = codes "path traversal sequences are not allowed"
path_error_message invalid_characters = codes "path contains invalid characters"

abbrev pub system_prefix : Bytes
system_prefix = codes "/-/"

-- RepoPrefix around the handler `next`
unfoldable pub repo_prefix : {S : Type 0} → Handler S → Handler S
repo_prefix next c s =
    if has_prefix c.path system_prefix then next c s else elim (rewrite_path c.path) [
      | inl e ↦ (ApiError.new 400 (codes "bad request") (path_error_message e) c.request_id, s)
      | inr (prefix, api_path) ↦ next (record c { repo_prefix = prefix; path = api_path }) s
    ]
