-- ===== src/Common/Paths.antt =====
-- The functions of Go's package `path` that the backends call, which are those of `path/filepath` on
-- Unix.
pub mod Length
use Prim.Native.Nat.{ℕ}
use mathlib.Core.Bool.{Bool, true, false, ◌&&◌}
use mathlib.Core.List.{List, [], ◌∷◌, ◌++◌, reverse}
use ts_restic_server.Common.Tests.{◌==◌, if◌then◌else◌}
use ts_restic_server.Common.Text.{Bytes, codes, eqs, split, join, trim_right}

abbrev pub separator : ℕ
separator = b'/'

abbrev pub is_rooted : Bytes → Bool
is_rooted [] = false
is_rooted (c ∷ p) = c == separator

-- ".." under the elements that are kept, the last one first
abbrev pub step_up : Bool → List Bytes → List Bytes
step_up true [] = []
step_up false [] = codes ".." ∷ []
step_up rooted (s ∷ kept) = if eqs s (codes "..") then codes ".." ∷ s ∷ kept else kept

abbrev pub clean_step : Bool → List Bytes → Bytes → List Bytes
clean_step rooted kept s =
    if eqs s []
    then kept
    else if eqs s (codes ".")
    then kept
    else if eqs s (codes "..")
    then step_up rooted kept
    else s ∷ kept

-- The elements that path.Clean keeps, the last one first.
unfoldable pub clean_elements : Bool → List Bytes → List Bytes → List Bytes
clean_elements rooted kept [] = kept
clean_elements rooted kept (s ∷ ss) = clean_elements rooted (clean_step rooted kept s) ss

abbrev pub rebuild : Bool → List Bytes → Bytes
rebuild true kept = separator ∷ join separator (reverse kept)
rebuild false [] = codes "."
rebuild false (s ∷ kept) = join separator (reverse (s ∷ kept))

-- path.Clean
unfoldable pub clean : Bytes → Bytes
clean p = rebuild (is_rooted p) (clean_elements (is_rooted p) [] (split separator p))

abbrev pub keep_full : List Bytes → List Bytes
keep_full [] = []
keep_full (s ∷ ss) = let rest = keep_full ss in if eqs s [] then rest else s ∷ rest

abbrev pub clean_unless_none : List Bytes → Bytes
clean_unless_none [] = []
clean_unless_none (s ∷ ss) = clean (join separator (s ∷ ss))

-- path.Join
unfoldable pub join_path : List Bytes → Bytes
join_path elements = clean_unless_none (keep_full elements)

-- the text up to and with the last "/", and what follows it
unfoldable pub split_last : Bytes → Bytes × Bytes
split_last [] = ([], [])
split_last (c ∷ p) =
    let (dir, file) = split_last p in
    elim dir [
      | [] ↦ if c == separator then (c ∷ [], file) else ([], c ∷ file)
      | d ∷ ds ↦ (c ∷ d ∷ ds, file)
    ]

-- path.Dir
unfoldable pub dir_of : Bytes → Bytes
dir_of p = clean (split_last p).0

-- path.Base
unfoldable pub base_of : Bytes → Bytes
base_of p =
    let trimmed = trim_right separator p in
    if eqs p [] then codes "." else if eqs trimmed [] then codes "/" else (split_last trimmed).1
