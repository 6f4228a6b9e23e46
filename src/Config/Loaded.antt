-- ===== src/Config/Loaded.antt =====
-- What a configuration has that Load returns: the access configuration that was given.
use ts_restic_server.Common.{
  List, [], ◌∷◌, ◌↔◌, arith, ◌≡◌, refl, ◌∙◌, sym, ap, subst, Bool, true, false, Option, none, some,
  ◌⊎◌, inl, inr, Bool-cases, Option-cases,
}
use ts_restic_server.Common.Text.{Bytes}
use ts_restic_server.Common.Fallible.{
  fail_if, or_fail, check, wrapped, bind-eq-inr, or_fail-eq-inr, check-eq-inr, wrapped-eq-inr,
  fail_if-eq-inr, inr-injective, bind-then,
}
use ts_restic_server.Settings.{AclRule, AclConfig, Config}
use ts_restic_server.Config.{is_nil, no_items, validate}
use ts_restic_server.Config.EnvVars.{Lookup}
use ts_restic_server.Config.Resolve.{
  resolve_string, resolve_acl, resolve_tailscale, resolve_storage, resolve_pointer, resolve_config,
}
use ts_restic_server.Config.Load.{
  unmarshal_failed, variable_unset, both_acls, invalid, Inputs, normalize_acl, has_acl, is_unset,
  no_rules, load_acl_file, chosen_acl, load,
}

is_nil-eq-true : (s : Bytes) → is_nil s ≡ true → s ≡ []
is_nil-eq-true [] h = refl
is_nil-eq-true (c ∷ s) h = absurd (cc)

-- The ACL of a resolved configuration is the resolved ACL.
resolve_config-acl :
    (lookup : Lookup) (lenient : Bool) (c r : Config)
    → resolve_config lookup lenient c ≡ inr r
    → resolve_pointer lookup lenient c.acl ≡ inr r.acl
unfolding resolve_config
resolve_config-acl lookup lenient c r h =
    bind-then (resolve_string lookup lenient c.listen) _ r h λ x0 _ h0.
      bind-then (resolve_string lookup lenient c.listen_mode) _ r h0 λ x1 _ h1.
        bind-then (resolve_string lookup lenient c.log_level) _ r h1 λ x2 _ h2.
          bind-then (resolve_tailscale lookup lenient c.tailscale) _ r h2 λ x3 _ h3.
            bind-then (resolve_storage lookup lenient c.storage) _ r h3 λ x4 _ h4.
              bind-then (resolve_string lookup lenient c.acl_file) _ r h4 λ x5 _ h5.
                bind-then (resolve_pointer lookup lenient c.acl) _ r h5 λ x6 is h6.
                  bind-then (resolve_string lookup lenient c.max_request_body_size) _ r h6
                    λ x7 _ h7.
                      bind-then (resolve_string lookup lenient c.metrics.password) _ r h7 λ x8 _ h8.
                        bind-then (resolve_string lookup lenient c.stats.db_path) _ r h8 λ x9 _ h9.
                          bind-then (resolve_string lookup lenient c.ui.auth.username) _ r h9
                            λ x10 _ h10.
                              bind-then (resolve_string lookup lenient c.ui.auth.password) _ r h10
                                λ x11 _ h11.
                                  is ∙ ap (λ a. inr a) (ap (λ x. x.acl) (inr-injective _ r h11))

normalize_acl-given :
    (acl : Option AclConfig) (a : AclConfig)
    → normalize_acl acl ≡ some a
    → (acl ≡ some a) × (is_unset a ≡ false)
normalize_acl-given none a h = absurd (cc)
normalize_acl-given (some b) a h = elim (Bool-cases (is_unset b)) [
  | inl unset ↦ absurd (let k = rw unset at h in cc)
  | inr set ↦
      let k = rw set at h in let same : b ≡ a = cc in (ap (λ x. some x) same, rw (sym same) set)
]

-- An ACL that is resolved is still there.
resolve_pointer-none :
    (lookup : Lookup) (lenient : Bool) (acl r : Option AclConfig)
    → resolve_pointer lookup lenient acl ≡ inr r
    → has_acl r ≡ false
    → acl ≡ none
resolve_pointer-none lookup lenient none r h absent = refl
resolve_pointer-none lookup lenient (some a) r h absent =
    let (b, _, k) = bind-eq-inr (resolve_acl lookup lenient a) _ r h in
    absurd (let same = inr-injective (some b) r k in let t = rw (sym same) at absent in cc)

-- None of the settings of an access configuration is given; the size of the identity cache and the
-- verbosity of denials have defaults, and do not count.
abbrev pub IsBlank : Option AclConfig → Type 0
IsBlank none = Unit
IsBlank (some a) =
    (a.default_role ≡ [])
    × (a.rules ≡ [])
    × (a.trusted_proxies ≡ [])
    × (a.dns_server ≡ [])
    × (a.rdns_cache_ttl ≡ 0)

is_nil_iff : (s : Bytes) → (is_nil s ≡ true) ↔ (s ≡ [])
is_nil_iff [] = (λ h. refl, λ h. refl)
is_nil_iff (c ∷ s) = (λ h. absurd (cc), λ h. absurd (cc))

no_rules_iff : (rs : List AclRule) → (no_rules rs ≡ true) ↔ (rs ≡ [])
no_rules_iff [] = (λ h. refl, λ h. refl)
no_rules_iff (r ∷ rs) = (λ h. absurd (cc), λ h. absurd (cc))

no_items_iff : (xs : List Bytes) → (no_items xs ≡ true) ↔ (xs ≡ [])
no_items_iff [] = (λ h. refl, λ h. refl)
no_items_iff (x ∷ xs) = (λ h. absurd (cc), λ h. absurd (cc))

is_unset_iff : (a : AclConfig) → (is_unset a ≡ true) ↔ IsBlank (some a)
unfolding is_unset
is_unset_iff a = (
  λ h. (
    (is_nil_iff a.default_role).0 (ground arith),
    (no_rules_iff a.rules).0 (ground arith),
    (no_items_iff a.trusted_proxies).0 (ground arith),
    (is_nil_iff a.dns_server).0 (ground arith),
    ground arith,
  ),
  λ (role, rules, proxies, server, ttl).
      let k1 = (is_nil_iff a.default_role).1 role in
      let k2 = (no_rules_iff a.rules).1 rules in
      let k3 = (no_items_iff a.trusted_proxies).1 proxies in
      let k4 = (is_nil_iff a.dns_server).1 server in ground arith,
)

normalize_acl-IsBlank : (acl : Option AclConfig) → normalize_acl acl ≡ none → IsBlank acl
normalize_acl-IsBlank none h = tt
normalize_acl-IsBlank (some a) h = elim (Bool-cases (is_unset a)) [
  | inl unset ↦ (is_unset_iff a).0 unset
  | inr set ↦ absurd (let k = rw set at h in cc)
]

module _ (inputs : Inputs) (lenient : Bool) where
  -- Where the access configuration of a loaded configuration is from: there is none, in the
  -- configuration or in a file; or it is the one of the configuration, with its placeholders replaced;
  -- or the one of the file.
  abbrev pub IsAclOf : Config → Config → Type 0
  IsAclOf given cfg =
      (IsBlank given.acl × (cfg.acl_file ≡ []) × (cfg.acl ≡ none))
      ⊎ ((a : AclConfig) × (b : AclConfig) × (given.acl ≡ some a)
          × (IsBlank (some a) → ⊥)
          × (resolve_acl inputs.lookup lenient a ≡ inr b)
          × (cfg.acl_file ≡ [])
          × (cfg.acl ≡ some b))
      ⊎ ((b : AclConfig) × IsBlank given.acl
          × (load_acl_file inputs lenient cfg.acl_file ≡ inr b)
          × (cfg.acl ≡ some b))

  -- The two steps that choose it.
  chosen-IsAclOf :
      (given resolved : Config) (acl : Option AclConfig)
      → resolve_pointer inputs.lookup lenient (normalize_acl given.acl) ≡ inr resolved.acl
      → chosen_acl inputs lenient resolved ≡ inr acl
      → IsAclOf given (record resolved { acl = acl })
  unfolding chosen_acl
  chosen-IsAclOf given resolved acl own chosen = elim (Bool-cases (is_nil resolved.acl_file)) [
    | inl no_file ↦
        let file = is_nil-eq-true resolved.acl_file no_file in
        let same : resolved.acl ≡ acl =
          (let k = rw (no_file, chosen_acl) at chosen in inr-injective resolved.acl acl k) in
        elim (Option-cases (normalize_acl given.acl)) [
          | inl none_given ↦
              let k = rw none_given at own in
              inl (
                normalize_acl-IsBlank given.acl none_given,
                file,
                sym same ∙ sym (inr-injective none resolved.acl k),
              )
          | inr (a, some_given) ↦
              let (at, set) = normalize_acl-given given.acl a some_given in
              let (b, resolved_b, k) =
                bind-eq-inr (resolve_acl inputs.lookup lenient a) _ resolved.acl
                  (rw some_given at own) in
              inr (
                inl (
                  a,
                  b,
                  at,
                  (λ blank. let k = (is_unset_iff a).1 blank in cc),
                  resolved_b,
                  file,
                  sym same ∙ sym (inr-injective (some b) resolved.acl k),
                ))
        ]
    | inr file ↦
        let k = rw (file, chosen_acl) at chosen in
        let (u, alone, k1) = bind-eq-inr (fail_if (has_acl resolved.acl) both_acls) _ acl k in
        let (b, loaded, k2) =
          bind-eq-inr (load_acl_file inputs lenient resolved.acl_file) _ acl k1 in
        inr (
          inr (
            b,
            normalize_acl-IsBlank given.acl (
                resolve_pointer-none inputs.lookup lenient (normalize_acl given.acl) resolved.acl
                  own (fail_if-eq-inr (has_acl resolved.acl) both_acls u alone)),
            loaded,
            sym (inr-injective (some b) acl k2),
          ))
  ]

  -- A configuration that Load returns has passed the checks. Its access configuration is the one that
  -- was configured, with its placeholders replaced, or the one of the ACL file, and never one of them
  -- where the other is given too; it has none only where neither is given.
  pub load_lem :
      (cfg : Config)
      → load inputs lenient ≡ inr cfg
      → (given : Config) × (inputs.unmarshalled ≡ some given)
        × IsAclOf given cfg
        × (validate inputs.parsers cfg ≡ none)
  unfolding load
  load_lem cfg h =
      bind-then (or_fail inputs.unmarshalled unmarshal_failed) _ cfg h λ given is_given h1.
        let input = record given { acl = normalize_acl given.acl } in
        bind-then (wrapped variable_unset (resolve_config inputs.lookup lenient input)) _ cfg h1
          λ resolved is_resolved h2.
            bind-then (chosen_acl inputs lenient resolved) _ cfg h2 λ acl is_chosen h3.
              let result = record resolved { acl = acl } in
              bind-then (check (validate inputs.parsers result) invalid) _ cfg h3 λ u passed h4.
                let own = resolve_config-acl inputs.lookup lenient input resolved (
                  wrapped-eq-inr variable_unset (resolve_config inputs.lookup lenient input)
                    resolved is_resolved) in
                let same : result ≡ cfg = inr-injective result cfg h4 in
                subst
                  (λ x.
                    (given : Config) × (inputs.unmarshalled ≡ some given)
                    × IsAclOf given x
                    × (validate inputs.parsers x ≡ none))
                  same
                  (
                    given,
                    or_fail-eq-inr inputs.unmarshalled unmarshal_failed given is_given,
                    chosen-IsAclOf given resolved acl own is_chosen,
                    check-eq-inr (validate inputs.parsers result) invalid u passed,
                  )
