-- ===== src/Config/EnvVars/Pieces.antt =====
-- What substituteString does to a text that is made of plain text and placeholders.
use ts_restic_server.Common.{
  if◌then◌else◌, ℕ, zero, suc, ◌+◌, ◌≡◌, ◌≢◌, refl, ap, sym, ◌∙◌, Bool, some, none, List, [], ◌∷◌,
  ◌++◌, ◌⊎◌, inl, inr, arith, length, length-append, append_assoc, All,
}
use ts_restic_server.Common.Text.{Bytes, cut}
use ts_restic_server.Config.EnvVars.{
  dollar, left_brace, right_brace, named, name_behind, match_name, Lookup, replacement, in_front,
  substitute_behind, substitute_string,
}

pub data Piece : Type 0 where
  plain variable : Bytes → Piece

abbrev pub shown : Piece → Bytes
shown (plain s) = s
shown (variable name) = dollar ∷ left_brace ∷ (name ++ right_brace ∷ [])

abbrev pub text_of : List Piece → Bytes
text_of [] = []
text_of (p ∷ ps) = shown p ++ text_of ps

-- Plain text has no "$"; a name is not empty and has no "}".
abbrev pub IsPiece : Piece → Type 0
IsPiece (plain s) = All (λ c. c ≢ dollar) s
IsPiece (variable name) = (name ≢ []) × All (λ c. c ≢ right_brace) name

-- The result, piece by piece: the text of the variables, or the first that is missing.
abbrev pub value_of : Lookup → Bool → Piece → Bytes ⊎ Bytes
value_of lookup lenient (plain s) = inr s
value_of lookup lenient (variable name) = elim (lookup name) [
  | some val ↦ inr val
  | none ↦ if lenient then inr (shown (variable name)) else inl name
]

abbrev pub values_of : Lookup → Bool → List Piece → Bytes ⊎ Bytes
values_of lookup lenient [] = inr []
values_of lookup lenient (p ∷ ps) =
    in_front (value_of lookup lenient p) (values_of lookup lenient ps)

in_front-cons :
    (c : ℕ) (s : Bytes) (rest : Bytes ⊎ Bytes)
    → in_front (inr (c ∷ [])) (in_front (inr s) rest) ≡ in_front (inr (c ∷ s)) rest
in_front-cons c s (inl e) = refl
in_front-cons c s (inr r) = refl

in_front-nil : (rest : Bytes ⊎ Bytes) → rest ≡ in_front (inr []) rest
in_front-nil (inl e) = refl
in_front-nil (inr r) = refl

module _ (lookup : Lookup) (lenient : Bool) where
  substitute_plain :
      (s rest : Bytes)
      → All (λ c. c ≢ dollar) s
      → substitute_behind lookup lenient zero (s ++ rest)
        ≡ in_front (inr s) (substitute_behind lookup lenient zero rest)
  unfolding substitute_behind match_name
  substitute_plain [] rest h = in_front-nil (substitute_behind lookup lenient zero rest)
  substitute_plain (c ∷ s) rest (n, h) =
      let none_here : match_name (c ∷ s ++ rest) ≡ none = ground (arith, n) in
      rw (none_here, substitute_plain s rest h) (in_front-cons c s _)

  taken_over :
      (p rest : Bytes) (n : ℕ)
      → n ≡ length p
      → substitute_behind lookup lenient n (p ++ rest) ≡ substitute_behind lookup lenient zero rest
  unfolding substitute_behind
  taken_over [] rest n h = rw h refl
  taken_over (c ∷ p) rest zero h = absurd (omega arith)
  taken_over (c ∷ p) rest (suc n) h = taken_over p rest n (omega arith)

  cut_name :
      (name rest : Bytes)
      → All (λ c. c ≢ right_brace) name
      → cut right_brace (name ++ right_brace ∷ rest) ≡ some (name, rest)
  unfolding cut
  cut_name [] rest h = refl
  cut_name (c ∷ name) rest (n, h) = rw (cut_name name rest h) (ground (arith, n))

  named_name : (name rest : Bytes) → name ≢ [] → named (some (name, rest)) ≡ some name
  named_name [] rest n = absurd (n refl)
  named_name (c ∷ name) rest n = refl

  match_name-shown :
      (name rest : Bytes)
      → name ≢ []
      → All (λ c. c ≢ right_brace) name
      → match_name (dollar ∷ left_brace ∷ (name ++ right_brace ∷ rest)) ≡ some name
  unfolding match_name name_behind
  match_name-shown name rest n h = rw (cut_name name rest h) (named_name name rest n)

  substitute_variable :
      (name rest : Bytes)
      → name ≢ []
      → All (λ c. c ≢ right_brace) name
      → substitute_behind lookup lenient zero (dollar ∷ left_brace ∷ (name ++ right_brace ∷ rest))
        ≡ in_front (replacement lookup lenient name) (substitute_behind lookup lenient zero rest)
  unfolding substitute_behind
  substitute_variable name rest n h =
      let size = length-append name (right_brace ∷ []) in
      rw (match_name-shown name rest n h) (
        ap (λ x. in_front (replacement lookup lenient name) x)
          (ap (λ x. substitute_behind lookup lenient (length name + 2) (left_brace ∷ x))
              (sym (append_assoc name (right_brace ∷ []) rest))
            ∙ taken_over (left_brace ∷ (name ++ right_brace ∷ [])) rest (length name + 2)
                (omega arith)))

  -- On a text of pieces, plain text without "$" and placeholders whose names are not empty and without
  -- "}", the result is that of the pieces, one after the other: plain text as it is, a variable's
  -- value as it is, and for a variable that is not set its placeholder in lenient mode and else the
  -- error that names the first such variable.
  pub substitute_string-text_of :
      (ps : List Piece)
      → All IsPiece ps
      → substitute_string lookup lenient (text_of ps) ≡ values_of lookup lenient ps
  unfolding substitute_string replacement
  substitute_string-text_of [] h = unfold substitute_behind in refl
  substitute_string-text_of (plain s ∷ ps) (p, h) =
      substitute_plain s (text_of ps) p
      ∙ ap (λ x. in_front (inr s) x) (substitute_string-text_of ps h)
  substitute_string-text_of (variable name ∷ ps) ((n, p), h) =
      ap (λ x. substitute_behind lookup lenient zero (dollar ∷ left_brace ∷ x))
        (append_assoc name (right_brace ∷ []) (text_of ps))
      ∙ substitute_variable name (text_of ps) n p
      ∙ ap (λ x. in_front (replacement lookup lenient name) x) (substitute_string-text_of ps h)
