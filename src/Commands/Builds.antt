-- ===== src/Commands/Builds.antt =====
-- A configuration that passes the checks builds: no later step of serve rejects it.
use ts_restic_server.Common.{
  ◌≡◌, refl, ◌⊎◌, inl, inr, true, false, ◌||◌, Option, none, some, List, [], ◌∷◌, map, all, All,
  arith, if◌then◌else◌, Bool-cases, Option-cases,
}
use ts_restic_server.Common.Text.{Bytes, codes, eqs, eqs_iff, to_lower}
use ts_restic_server.Common.Fallible.{each}
use ts_restic_server.Settings.{AclRule, AclConfig, Storage, Config}
use ts_restic_server.Config.{Parsers, validate, valid_permission, known_backend, no_items}
use ts_restic_server.Config.Validation.{
  IsGoodRule, IsGoodAcl, validate-acl, validate-known_backend, validate-proxies,
}
use ts_restic_server.Acl
use ts_restic_server.Acl.{
  Permission, Rule, Engine, NewError, parse_permission, permission_string, deny, read_only,
  append_only, full_access, is_empty, normalize_path, normalize_rule,
}
use ts_restic_server.Acl.Accepted.{is_complete, IsAnswer, new-IsAnswer}
use ts_restic_server.Commands.{
  EngineError, build_rule, build_acl_engine, IpExtractor, direct, from_forwarded, trusted_of,
  parse_cidr, build_ip_extractor, BackendChoice, memory_backend, filesystem_backend, s3_backend,
  webdav_backend, rclone_backend, smb_backend, nfs_backend, build_backend,
}

-- A permission that passes the check is one that the engine knows by that name.
parse_permission-valid :
    (s : Bytes)
    → valid_permission s ≡ true
    → (p : Permission) × (parse_permission s ≡ some p) × (permission_string p ≡ s)
unfolding valid_permission parse_permission permission_string to_lower eqs
parse_permission-valid s h = elim (Bool-cases (eqs s (codes "deny"))) [
  | inl is ↦ rw ((eqs_iff s (codes "deny")).0 is) (deny, refl, refl)
  | inr not_deny ↦ elim (Bool-cases (eqs s (codes "read-only"))) [
    | inl is ↦ rw ((eqs_iff s (codes "read-only")).0 is) (read_only, refl, refl)
    | inr not_read ↦ elim (Bool-cases (eqs s (codes "append-only"))) [
      | inl is ↦ rw ((eqs_iff s (codes "append-only")).0 is) (append_only, refl, refl)
      | inr not_append ↦
          let is : eqs s (codes "full-access") ≡ true = ground arith in
          rw ((eqs_iff s (codes "full-access")).0 is) (full_access, refl, refl)
    ]
  ]
]

-- A rule of the engine is one of the configuration, with its permission parsed and its paths
-- normalized.
pub record IsRuleOf (r : AclRule) (built : Rule) : Type 0 where
  pub paths : built.paths ≡ map normalize_path r.paths
  pub identities : built.identities ≡ r.identities
  pub permission : permission_string built.permission ≡ r.permission

abbrev pub AreRulesOf : List AclRule → List Rule → Type 0
AreRulesOf [] [] = Unit
AreRulesOf [] (b ∷ bs) = ⊥
AreRulesOf (r ∷ rs) [] = ⊥
AreRulesOf (r ∷ rs) (b ∷ bs) = IsRuleOf r b × AreRulesOf rs bs

is_empty-no_items : (xs : List Bytes) → is_empty xs ≡ no_items xs
is_empty-no_items [] = refl
is_empty-no_items (x ∷ xs) = refl

build_rule-parsed :
    (r : AclRule) (p : Permission)
    → parse_permission r.permission ≡ some p
    → build_rule r ≡ inr (record { paths = r.paths; identities = r.identities; permission = p })
unfolding build_rule
build_rule-parsed r p parsed = rw parsed refl

-- The rules before New normalizes them.
build_rules-good :
    (rs : List AclRule)
    → All IsGoodRule rs
    → (built : List Rule) × (each build_rule rs ≡ inr built)
      × (all is_complete built ≡ true)
      × AreRulesOf rs (map normalize_rule built)
build_rules-good [] h = ([], refl, refl, tt)
build_rules-good (r ∷ rs) (good, h) =
    let (built, is, complete, same) = build_rules-good rs h in
    let (p, parsed, named) = parse_permission-valid r.permission good.permission in
    (
      (record { paths = r.paths; identities = r.identities; permission = p }) ∷ built,
      rw (is, build_rule-parsed r p parsed) refl,
      rw
          (
            is_empty-no_items r.paths,
            is_empty-no_items r.identities,
            good.paths,
            good.identities,
            complete,
          )
          refl,
      (record { paths = refl; identities = refl; permission = named }, same),
    )

build_acl_engine-good :
    (a : AclConfig)
    → (valid_permission a.default_role ≡ true) × All IsGoodRule a.rules
    → (e : Engine) × (build_acl_engine (some a) ≡ inr (some e))
      × (permission_string e.default_perm ≡ a.default_role)
      × AreRulesOf a.rules e.rules
unfolding build_acl_engine
build_acl_engine-good a (role, rules) =
    let (p, parsed, named) = parse_permission-valid a.default_role role in
    let (built, is, complete, same) = build_rules-good a.rules rules in
    made p parsed named built is complete same (Acl.new p built) refl (new-IsAnswer p built)
  where
    made :
        (p : Permission)
        → parse_permission a.default_role ≡ some p
        → permission_string p ≡ a.default_role
        → (built : List Rule) → each build_rule a.rules ≡ inr built
        → all is_complete built ≡ true
        → AreRulesOf a.rules (map normalize_rule built)
        → (answer : NewError ⊎ Engine) → Acl.new p built ≡ answer
        → IsAnswer p built answer
        → (e : Engine) × (build_acl_engine (some a) ≡ inr (some e))
          × (permission_string e.default_perm ≡ a.default_role)
          × AreRulesOf a.rules e.rules
    made p parsed named built is complete same (inl error) got (bad, at) = absurd (cc)
    made p parsed named built is complete same (inr e) got (good, perm, rules) =
        (e, rw (parsed, is, got) refl, rw perm named, rw rules same)

-- The engine of an access configuration: none without one, and else one with the same default role and
-- rules.
abbrev pub IsEngineOf : Option AclConfig → EngineError ⊎ Option Engine → Type 0
IsEngineOf none result = result ≡ inr none
IsEngineOf (some a) result =
    (e : Engine) × (result ≡ inr (some e))
    × (permission_string e.default_perm ≡ a.default_role)
    × AreRulesOf a.rules e.rules

build_acl_engine-IsEngineOf :
    (acl : Option AclConfig) → IsGoodAcl acl → IsEngineOf acl (build_acl_engine acl)
build_acl_engine-IsEngineOf none h = unfold build_acl_engine in refl
build_acl_engine-IsEngineOf (some a) h = build_acl_engine-good a h

parse_cidr-each :
    (p : Parsers) (cidrs : List Bytes)
    → All (λ cidr. p.valid_cidr cidr ≡ true) cidrs
    → each (parse_cidr p) cidrs ≡ inr cidrs
parse_cidr-each p [] h = refl
parse_cidr-each p (cidr ∷ rest) (valid, h) = rw (valid, parse_cidr-each p rest h) refl

proxies_valid :
    (p : Parsers) (c : Config)
    → validate p c ≡ none
    → All (λ cidr. p.valid_cidr cidr ≡ true) (trusted_of c.acl)
proxies_valid p c h = elim (Option-cases c.acl) [
  | inl absent ↦ rw absent tt
  | inr (a, present) ↦ rw present (validate-proxies p c a h present)
]

-- Forwarded addresses count in plain mode only, where there are trusted proxies, and from these alone.
abbrev pub extractor_of : Config → IpExtractor
extractor_of c =
    if eqs c.listen_mode (codes "tailscale") || no_items (trusted_of c.acl)
    then direct
    else from_forwarded (trusted_of c.acl)

build_ip_extractor-valid :
    (p : Parsers) (c : Config) → validate p c ≡ none → build_ip_extractor p c ≡ inr (extractor_of c)
unfolding build_ip_extractor
build_ip_extractor-valid p c h =
    elim (Bool-cases (eqs c.listen_mode (codes "tailscale") || no_items (trusted_of c.acl))) [
      | inl plain ↦ rw plain refl
      | inr proxied ↦ rw (proxied, parse_cidr-each p (trusted_of c.acl) (proxies_valid p c h)) refl
    ]

-- The backend that a storage section asks for, by its name and with the settings of that name.
abbrev pub IsBackendOf : Storage → BackendChoice → Type 0
IsBackendOf s (memory_backend max_bytes) =
    (s.backend ≡ codes "memory") × (max_bytes ≡ s.max_memory_bytes)
IsBackendOf s (filesystem_backend path) = (s.backend ≡ codes "filesystem") × (path ≡ s.path)
IsBackendOf s (s3_backend bucket prefix region endpoint access_key secret_key) =
    (s.backend ≡ codes "s3")
    × (bucket ≡ s.s3.bucket)
    × (prefix ≡ s.s3.prefix)
    × (region ≡ s.s3.region)
    × (endpoint ≡ s.s3.endpoint)
    × (access_key ≡ s.s3.access_key)
    × (secret_key ≡ s.s3.secret_key)
IsBackendOf s (webdav_backend endpoint username password prefix) =
    (s.backend ≡ codes "webdav")
    × (endpoint ≡ s.webdav.endpoint)
    × (username ≡ s.webdav.username)
    × (password ≡ s.webdav.password)
    × (prefix ≡ s.webdav.prefix)
IsBackendOf s (rclone_backend endpoint username password) =
    (s.backend ≡ codes "rclone")
    × (endpoint ≡ s.rclone.endpoint)
    × (username ≡ s.rclone.username)
    × (password ≡ s.rclone.password)
IsBackendOf s (smb_backend server port share username password domain base_path) =
    (s.backend ≡ codes "smb")
    × (server ≡ s.smb.server)
    × (port ≡ s.smb.port)
    × (share ≡ s.smb.share)
    × (username ≡ s.smb.username)
    × (password ≡ s.smb.password)
    × (domain ≡ s.smb.domain)
    × (base_path ≡ s.smb.base_path)
IsBackendOf s (nfs_backend server exported base_path uid gid) =
    (s.backend ≡ codes "nfs")
    × (server ≡ s.nfs.server)
    × (exported ≡ s.nfs.export)
    × (base_path ≡ s.nfs.base_path)
    × (uid ≡ s.nfs.uid)
    × (gid ≡ s.nfs.gid)

abbrev IsChoiceOf : Storage → Option BackendChoice → Type 0
IsChoiceOf s none = known_backend s.backend ≡ false
IsChoiceOf s (some choice) = IsBackendOf s choice

-- One test of the switch.
IsChoiceOf-if :
    (s : Storage) (this : Bytes) (choice : BackendChoice) (rest : Option BackendChoice)
    → (s.backend ≡ this → IsBackendOf s choice)
    → (eqs s.backend this ≡ false → IsChoiceOf s rest)
    → IsChoiceOf s (if eqs s.backend this then some choice else rest)
IsChoiceOf-if s this choice rest is h = elim (Bool-cases (eqs s.backend this)) [
  | inl same ↦ rw same (is ((eqs_iff s.backend this).0 same))
  | inr other ↦ rw other (h other)
]

build_backend-IsChoiceOf : (c : Config) → IsChoiceOf c.storage (build_backend c)
unfolding build_backend known_backend
build_backend-IsChoiceOf c =
    let s = c.storage in
    IsChoiceOf-if s (codes "memory") _ _ (λ e. (e, refl))
      λ n1.
        IsChoiceOf-if s (codes "filesystem") _ _ (λ e. (e, refl))
          λ n2.
            IsChoiceOf-if s (codes "s3") _ _ (λ e. (e, refl, refl, refl, refl, refl, refl))
              λ n3.
                IsChoiceOf-if s (codes "webdav") _ _ (λ e. (e, refl, refl, refl, refl))
                  λ n4.
                    IsChoiceOf-if s (codes "rclone") _ _ (λ e. (e, refl, refl, refl))
                      λ n5.
                        IsChoiceOf-if s (codes "smb") _ _
                          (λ e. (e, refl, refl, refl, refl, refl, refl, refl))
                          λ n6.
                            IsChoiceOf-if s (codes "nfs") _ none
                              (λ e. (e, refl, refl, refl, refl, refl)) λ n7. ground arith

build_backend-known :
    (c : Config)
    → known_backend c.storage.backend ≡ true
    → (choice : BackendChoice) × (build_backend c ≡ some choice) × IsBackendOf c.storage choice
build_backend-known c h = asked (build_backend c) refl (build_backend-IsChoiceOf c)
  where
    asked :
        (built : Option BackendChoice)
        → build_backend c ≡ built
        → IsChoiceOf c.storage built
        → (choice : BackendChoice) × (build_backend c ≡ some choice) × IsBackendOf c.storage choice
    asked none is unknown = absurd (cc)
    asked (some choice) is known = (choice, is, known)

-- Nothing that serve builds of a configuration which passes the checks is rejected. The engine is
-- none without an access configuration, and else has its default role and its rules with normalized
-- paths; forwarded addresses are trusted from the configured proxies alone, and not in Tailscale
-- mode; and the backend is the one that is named, with the settings of its section.
pub validated-builds :
    (p : Parsers) (c : Config)
    → validate p c ≡ none
    → IsEngineOf c.acl (build_acl_engine c.acl)
      × (build_ip_extractor p c ≡ inr (extractor_of c))
      × ((choice : BackendChoice) × (build_backend c ≡ some choice) × IsBackendOf c.storage choice)
validated-builds p c h = (
  build_acl_engine-IsEngineOf c.acl (validate-acl p c h),
  build_ip_extractor-valid p c h,
  build_backend-known c (validate-known_backend p c h),
)
