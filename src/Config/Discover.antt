-- ===== src/Config/Discover.antt =====
-- internal/config/discover.go: which config file is loaded. What os.Stat says of a path is a
-- parameter: no file, a regular file, or something else.
use ts_restic_server.Common.{
  ◌≡◌, ◌⊎◌, inl, inr, Bool, true, false, Option, none, some, List, [], ◌∷◌, arith, if◌then◌else◌,
  Bool-cases,
}
use ts_restic_server.Common.Text.{Bytes, codes}
use ts_restic_server.Config.{is_nil}

pub data FileKind : Type 0 where
  missing regular irregular : FileKind

pub data FindError : Type 0 where
  no_such_file not_regular : FindError

abbrev pub is_regular : FileKind → Bool
is_regular regular = true
is_regular _ = false

-- configFileNames
abbrev pub config_file_names : List Bytes
config_file_names = codes "config.yaml" ∷ codes "config.yml" ∷ []

-- `join_path` is filepath.Join
module _ (stat : Bytes → FileKind) (join_path : Bytes → Bytes → Bytes) where
  abbrev pub explicit_file : Bytes → FileKind → FindError ⊎ Bytes
  explicit_file path missing = inl no_such_file
  explicit_file path irregular = inl not_regular
  explicit_file path regular = inr path

  -- the inner loop, over the file names; `none` where it finds no file
  unfoldable pub find_in : Bytes → List Bytes → Option Bytes
  find_in dir [] = none
  find_in dir (name ∷ names) =
      if is_regular (stat (join_path dir name))
      then some (join_path dir name)
      else find_in dir names

  abbrev pub or_else : Option Bytes → Bytes → Bytes
  or_else none rest = rest
  or_else (some p) rest = p

  -- the outer loop, over the directories
  unfoldable pub search_dirs : List Bytes → Bytes
  search_dirs [] = []
  search_dirs (dir ∷ dirs) = or_else (find_in dir config_file_names) (search_dirs dirs)

  -- FindConfigFile
  unfoldable pub find_config_file : Bytes → List Bytes → FindError ⊎ Bytes
  find_config_file explicit dirs =
      if is_nil explicit then inr (search_dirs dirs) else explicit_file explicit (stat explicit)

module _ (stat : Bytes → FileKind) (join_path : Bytes → Bytes → Bytes) where
  -- What the search has found, if anything, is a regular file.
  abbrev IsFound : Option Bytes → Type 0
  IsFound none = Unit
  IsFound (some path) = is_regular (stat path) ≡ true

  find_in-IsFound : (dir : Bytes) (names : List Bytes) → IsFound (find_in stat join_path dir names)
  unfolding find_in
  find_in-IsFound dir [] = tt
  find_in-IsFound dir (name ∷ names) = elim (Bool-cases (is_regular (stat (join_path dir name)))) [
    | inl found ↦ rw found found
    | inr other ↦ rw other (find_in-IsFound dir names)
  ]

  or_else-IsFound :
      (o : Option Bytes) (rest : Bytes)
      → IsFound o
      → (is_nil rest ≡ false → is_regular (stat rest) ≡ true)
      → is_nil (or_else stat join_path o rest) ≡ false
      → is_regular (stat (or_else stat join_path o rest)) ≡ true
  or_else-IsFound none rest h k given = k given
  or_else-IsFound (some path) rest h k given = h

  search_dirs-regular :
      (dirs : List Bytes)
      → is_nil (search_dirs stat join_path dirs) ≡ false
      → is_regular (stat (search_dirs stat join_path dirs)) ≡ true
  unfolding search_dirs
  search_dirs-regular [] given = cc
  search_dirs-regular (dir ∷ dirs) given =
      or_else-IsFound (find_in stat join_path dir config_file_names)
        (search_dirs stat join_path dirs) (find_in-IsFound dir config_file_names)
        (search_dirs-regular dirs) given

  -- A path that is returned, unless it is empty, is that of a regular file.
  pub find_config_file-regular :
      (explicit : Bytes) (dirs : List Bytes) (path : Bytes)
      → find_config_file stat join_path explicit dirs ≡ inr path
      → is_nil path ≡ false
      → is_regular (stat path) ≡ true
  unfolding find_config_file
  find_config_file-regular explicit dirs path e given = ground (arith, search_dirs-regular dirs)
