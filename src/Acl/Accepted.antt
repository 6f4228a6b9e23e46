-- ===== src/Acl/Accepted.antt =====
-- New of internal/acl/acl.go: which rules make an engine, and what it holds.
use ts_restic_server.Common.{
  ℕ, ◌+◌, ◌≡◌, refl, ◌⊎◌, inl, inr, Bool, true, false, ◌&&◌, not, arith, List, [], ◌∷◌, map, all,
  Bool-cases, if◌then◌else◌, ap,
}
use ts_restic_server.Acl.{
  Permission, Rule, Engine, NewError, paths_empty, identities_empty, is_empty, normalize_rule,
  check_rules, new,
}

abbrev pub is_complete : Rule → Bool
is_complete r = not (is_empty r.paths) && not (is_empty r.identities)

-- The number of the first rule that is not complete, counted from `i`.
abbrev pub first_incomplete : ℕ → List Rule → ℕ
first_incomplete i [] = i
first_incomplete i (r ∷ rs) = if is_complete r then first_incomplete (i + 1) rs else i

abbrev pub rejected_rule : NewError → ℕ
rejected_rule (paths_empty i) = i
rejected_rule (identities_empty i) = i

-- What New answers: the engine with all paths normalized, or an error at the first rule that lacks
-- paths or identities.
abbrev pub IsAnswer : Permission → List Rule → NewError ⊎ Engine → Type 0
IsAnswer p rs (inl e) = (all is_complete rs ≡ false) × (rejected_rule e ≡ first_incomplete 0 rs)
IsAnswer p rs (inr engine) =
    (all is_complete rs ≡ true) × (engine.default_perm ≡ p) × (engine.rules ≡ map normalize_rule rs)

abbrev IsChecked : ℕ → List Rule → NewError ⊎ List Rule → Type 0
IsChecked i rs (inl e) = (all is_complete rs ≡ false) × (rejected_rule e ≡ first_incomplete i rs)
IsChecked i rs (inr done) = (all is_complete rs ≡ true) × (done ≡ map normalize_rule rs)

step-IsChecked :
    (i : ℕ) (r : Rule) (rs : List Rule) (rest : NewError ⊎ List Rule)
    → IsChecked (i + 1) rs rest
    → is_complete r ≡ true
    → IsChecked i (r ∷ rs) (elim rest [ inl e ↦ inl e | inr done ↦ inr (normalize_rule r ∷ done) ])
step-IsChecked i r rs (inl e) (bad, at) complete = rw complete (bad, at)
step-IsChecked i r rs (inr done) (good, same) complete =
    rw complete (good, ap (λ ds. normalize_rule r ∷ ds) same)

check_rules-IsChecked : (i : ℕ) (rs : List Rule) → IsChecked i rs (check_rules i rs)
unfolding check_rules
check_rules-IsChecked i [] = (refl, refl)
check_rules-IsChecked i (r ∷ rs) = elim (Bool-cases (is_empty r.paths)) [
  | inl no_paths ↦ rw no_paths (ground arith, ground arith)
  | inr paths ↦ elim (Bool-cases (is_empty r.identities)) [
    | inl no_identities ↦ rw (paths, no_identities) (ground arith, ground arith)
    | inr identities ↦
        rw (paths, identities)
          (step-IsChecked i r rs (check_rules (i + 1) rs) (check_rules-IsChecked (i + 1) rs)
            (rw (paths, identities)))
  ]
]

answer :
    (p : Permission) (rs : List Rule) (checked : NewError ⊎ List Rule)
    → IsChecked 0 rs checked
    → IsAnswer p rs (elim checked [
      | inl e ↦ inl e
      | inr done ↦ inr (record { default_perm = p; rules = done })
    ])
answer p rs (inl e) h = h
answer p rs (inr done) (good, same) = (good, refl, same)

-- New accepts exactly the lists of rules that all have paths and identities, and then the engine has
-- the default permission and the rules with their paths normalized; otherwise its error names the
-- first rule that lacks one.
pub new-IsAnswer : (p : Permission) (rs : List Rule) → IsAnswer p rs (new p rs)
unfolding new
new-IsAnswer p rs = answer p rs (check_rules 0 rs) (check_rules-IsChecked 0 rs)
