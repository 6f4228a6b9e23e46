-- ===== src/Config/Validation.antt =====
-- What a configuration that passes the checks has.
use ts_restic_server.Common.{
  ◌≢◌, Option-cases, inl, inr, ℕ, suc, ◌≡◌, refl, ◌<◌, ◌^◌, true, false, ◌&&◌, not, Option, none,
  some, List, [], ◌∷◌, arith, All,
}
use ts_restic_server.Common.Text.{Bytes, codes, eqs, eqs_iff}
use ts_restic_server.Common.Int64.{lt64, half}
use ts_restic_server.Settings.{AclRule, AclConfig, Storage, Config}
use ts_restic_server.Config.{
  storage_path, s3_bucket, s3_endpoint, max_memory_bytes, no_scheme, Parsers, ConfigError, fail_if,
  ◌then_check◌, is_nil, valid_permission, no_items, check_rules, check_proxies, known_backend,
  max_request_body_bytes, validate_acl, check_acl, validate, check_storage,
}

-- A rule that the ACL engine accepts: with paths, identities and a permission that it parses.
pub record IsGoodRule (r : AclRule) : Type 0 where
  pub paths : no_items r.paths ≡ false
  pub identities : no_items r.identities ≡ false
  pub permission : valid_permission r.permission ≡ true

check_rules-good : (i : ℕ) (rs : List AclRule) → check_rules i rs ≡ none → All IsGoodRule rs
unfolding check_rules
check_rules-good i [] h = tt
check_rules-good i (r ∷ rs) h = ground (arith, check_rules-good (suc i) rs)

-- An access configuration that passes has a known default role and only good rules.
pub validate_acl-good :
    (p : Parsers) (a : AclConfig)
    → validate_acl p a ≡ none
    → (valid_permission a.default_role ≡ true) × All IsGoodRule a.rules
unfolding validate_acl
validate_acl-good p a h = (ground arith, check_rules-good 0 a.rules (ground arith))

abbrev pub IsGoodAcl : Option AclConfig → Type 0
IsGoodAcl none = Unit
IsGoodAcl (some a) = (valid_permission a.default_role ≡ true) × All IsGoodRule a.rules

-- The parts of the check of the whole configuration.
validate_parts :
    (p : Parsers) (c : Config)
    → validate p c ≡ none
    → (lt64 0 c.shutdown_timeout ≡ true)
      × (check_storage c.storage ≡ none)
      × (check_acl p c.acl ≡ none)
unfolding validate
validate_parts p c h = (ground arith, ground arith, ground arith)

-- A chain of checks passes only if its first check and the rest pass.
then_check-eq-none : (a b : Option ConfigError) → (a then_check b) ≡ none → (a ≡ none) × (b ≡ none)
then_check-eq-none none b h = (refl, h)
then_check-eq-none (some e) b h = cc

memory_limit :
    (s : Storage)
    → check_storage s ≡ none
    → eqs s.backend (codes "memory") ≡ true
    → lt64 0 s.max_memory_bytes ≡ true
unfolding check_storage
memory_limit s h memory =
    let (_, h1) =
      then_check-eq-none
        (fail_if (eqs s.backend (codes "filesystem") && is_nil s.path) storage_path) _ h in
    let (_, h2) =
      then_check-eq-none (fail_if (eqs s.backend (codes "s3") && is_nil s.s3.bucket) s3_bucket) _
        h1 in
    let (_, h3) =
      then_check-eq-none
        (fail_if
          (eqs s.backend (codes "s3") && not (is_nil s.s3.endpoint) && no_scheme s.s3.endpoint)
          s3_endpoint)
        _ h2 in
    let (h4, _) =
      then_check-eq-none
        (fail_if (eqs s.backend (codes "memory") && not (lt64 0 s.max_memory_bytes))
          max_memory_bytes)
        _ h3 in
    below memory h4
  where
    below :
        eqs s.backend (codes "memory") ≡ true
        → fail_if
            (eqs s.backend (codes "memory") && not (lt64 0 s.max_memory_bytes))
            max_memory_bytes
          ≡ none
        → lt64 0 s.max_memory_bytes ≡ true
    below memory h = ground arith

positive64 : (n : ℕ) → n < 2 ^ 64 → lt64 0 n ≡ true → (0 < n) × (n < half)
unfolding lt64
positive64 n bound h = ground arith

-- The configuration of the memory backend that passes has a limit which is positive as an int64.
pub validate-memory_limit :
    (p : Parsers) (c : Config)
    → validate p c ≡ none
    → c.storage.backend ≡ codes "memory"
    → c.storage.max_memory_bytes < 2 ^ 64
    → (0 < c.storage.max_memory_bytes) × (c.storage.max_memory_bytes < half)
validate-memory_limit p c h memory bound = positive64 c.storage.max_memory_bytes bound (
    memory_limit c.storage (validate_parts p c h).1
      ((eqs_iff c.storage.backend (codes "memory")).1 memory))

check_acl-good : (p : Parsers) (a : Option AclConfig) → check_acl p a ≡ none → IsGoodAcl a
check_acl-good p none h = tt
check_acl-good p (some a) h = validate_acl-good p a h

-- Every access configuration that passes has a known default role and only rules with paths,
-- identities and a known permission.
pub validate-acl : (p : Parsers) (c : Config) → validate p c ≡ none → IsGoodAcl c.acl
validate-acl p c h = check_acl-good p c.acl (validate_parts p c h).2

-- A configuration that passes names a backend that buildBackend knows.
pub validate-known_backend :
    (p : Parsers) (c : Config) → validate p c ≡ none → known_backend c.storage.backend ≡ true
unfolding validate
validate-known_backend p c h = ground arith

check_proxies-valid :
    (p : Parsers) (i : ℕ) (cidrs : List Bytes)
    → check_proxies p i cidrs ≡ none
    → All (λ cidr. p.valid_cidr cidr ≡ true) cidrs
unfolding check_proxies
check_proxies-valid p i [] h = tt
check_proxies-valid p i (cidr ∷ rest) h = ground (arith, check_proxies-valid p (suc i) rest)

validate_acl-proxies :
    (p : Parsers) (a : AclConfig)
    → validate_acl p a ≡ none
    → check_proxies p 0 a.trusted_proxies ≡ none
unfolding validate_acl
validate_acl-proxies p a h = ground arith

-- The trusted proxies of an access configuration that passes are ranges.
pub validate-proxies :
    (p : Parsers) (c : Config) (a : AclConfig)
    → validate p c ≡ none
    → c.acl ≡ some a
    → All (λ cidr. p.valid_cidr cidr ≡ true) a.trusted_proxies
validate-proxies p c a h is =
    let passed : check_acl p (some a) ≡ none = rw is at (validate_parts p c h).2 in
    check_proxies-valid p 0 a.trusted_proxies (validate_acl-proxies p a passed)

body_limit_checked :
    (p : Parsers) (c : Config) → validate p c ≡ none → max_request_body_bytes p c ≢ none
unfolding validate
body_limit_checked p c h = λ e. ground arith

-- The body limit of a configuration that passes can be parsed.
pub validate-body_limit :
    (p : Parsers) (c : Config)
    → validate p c ≡ none
    → (limit : ℕ) × (max_request_body_bytes p c ≡ some limit)
validate-body_limit p c h = elim (Option-cases (max_request_body_bytes p c)) [
  | inl failed ↦ absurd (body_limit_checked p c h failed)
  | inr given ↦ given
]
