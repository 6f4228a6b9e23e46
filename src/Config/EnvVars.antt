-- ===== src/Config/EnvVars.antt =====
-- internal/config/envsubst.go: ${VAR_NAME} placeholders. os.LookupEnv is a parameter; an error is the
-- name of the variable that is not set.
pub mod Pieces
use ts_restic_server.Common.{
  ℕ, zero, suc, ◌+◌, Bool, true, false, ◌&&◌, not, Option, none, some, List, [], ◌∷◌, ◌++◌, ◌⊎◌,
  inl, inr, if◌then◌else◌, ◌==◌, length,
}
use ts_restic_server.Common.Text.{Bytes, codes, cut}

abbrev pub dollar : ℕ
dollar = b'$'

abbrev pub left_brace : ℕ
left_brace = b'{'

abbrev pub right_brace : ℕ
right_brace = b'}'

-- the name up to the next "}", which the expression wants to be there and not empty
abbrev pub named : Option (Bytes × Bytes) → Option Bytes
named none = none
named (some ([], rest)) = none
named (some (c ∷ name, rest)) = some (c ∷ name)

-- the text behind "$"
unfoldable pub name_behind : Bytes → Option Bytes
unfolding cut
name_behind [] = none
name_behind (c ∷ s) = if c == left_brace then named (cut right_brace s) else none

-- the name of a placeholder at the head of the text: the expression \$\{([^}]+)\}
unfoldable pub match_name : Bytes → Option Bytes
unfolding name_behind
match_name [] = none
match_name (c ∷ s) = if c == dollar then name_behind s else none

abbrev pub Lookup : Type 0
Lookup = Bytes → Option Bytes

-- what ReplaceAllStringFunc puts for a placeholder
unfoldable pub replacement : Lookup → Bool → Bytes → Bytes ⊎ Bytes
replacement lookup lenient name = elim (lookup name) [
  | some val ↦ inr val
  | none ↦ if lenient then inr (dollar ∷ left_brace ∷ (name ++ right_brace ∷ [])) else inl name
]

-- the text in front of a result
abbrev pub in_front : Bytes ⊎ Bytes → Bytes ⊎ Bytes → Bytes ⊎ Bytes
in_front (inl e) rest = inl e
in_front (inr s) (inl e) = inl e
in_front (inr s) (inr rest) = inr (s ++ rest)

-- the placeholder at the head, or its first byte where none stands there; `rest` gives the result for
-- the text behind so many bytes
abbrev pub replace_head : Lookup → Bool → ℕ → Option Bytes → (ℕ → Bytes ⊎ Bytes) → Bytes ⊎ Bytes
replace_head lookup lenient c none rest = in_front (inr (c ∷ [])) (rest 0)
replace_head lookup lenient c (some name) rest =
    in_front (replacement lookup lenient name) (rest (length name + 2))

-- substituteString behind the first bytes of the text, which a placeholder has taken
unfoldable pub substitute_behind : Lookup → Bool → ℕ → Bytes → Bytes ⊎ Bytes
unfolding match_name replacement
substitute_behind lookup lenient taken [] = inr []
substitute_behind lookup lenient (suc taken) (c ∷ s) = substitute_behind lookup lenient taken s
substitute_behind lookup lenient zero (c ∷ s) =
    replace_head lookup lenient c (match_name (c ∷ s))
      (λ taken. substitute_behind lookup lenient taken s)

-- substituteString
unfoldable pub substitute_string : Lookup → Bool → Bytes → Bytes ⊎ Bytes
unfolding substitute_behind
substitute_string lookup lenient s = substitute_behind lookup lenient 0 s
