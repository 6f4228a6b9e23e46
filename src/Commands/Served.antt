-- ===== src/Commands/Served.antt =====
-- What runServe puts together from the configuration that it loads.
use ts_restic_server.Common.{
  ◌≡◌, refl, ap, sym, ◌∙◌, subst, ◌⊎◌, inl, inr, Bool, true, false, not, Option, none, some, [],
  arith,
}
use ts_restic_server.Common.Fallible.{
  fail_if, or_fail, wrapped, bind-either, wrapped-eq-inr, inr-injective, fail_if-eq-inl,
  wrapped-eq-inl, or_fail-not-inl, wrapped-not-inl, or_fail-eq-inr,
}
use ts_restic_server.Settings.{AclConfig, Storage, Config}
use ts_restic_server.Acl.{Engine}
use ts_restic_server.Config.{max_request_body_bytes}
use ts_restic_server.Config.Validation.{validate-body_limit}
use ts_restic_server.Config.Load.{load}
use ts_restic_server.Config.Loaded.{IsAclOf, IsBlank, load_lem}
use ts_restic_server.Commands.{
  EngineError, build_acl_engine, build_ip_extractor, build_backend, BackendChoice,
}
use ts_restic_server.Commands.Builds.{IsEngineOf, extractor_of, IsBackendOf, validated-builds}
use ts_restic_server.Commands.Serve.{
  ServeEnv, ServeError, unknown_backend, engine_error, extractor_error, body_limit_error,
  config_error, load_error, logger_error, backend_error, Served, node_of, run_serve,
}

-- The errors of what is built of the loaded configuration.
abbrev pub is_rejection : ServeError → Bool
is_rejection unknown_backend = true
is_rejection (engine_error _) = true
is_rejection (extractor_error _) = true
is_rejection body_limit_error = true
is_rejection _ = false

-- A server stands on a configuration that was loaded, with its backend, its access rules and its
-- trusted proxies; an error is none of those.
abbrev pub IsServed : ServeEnv → ServeError ⊎ Served → Type 0
IsServed env (inl e) = is_rejection e ≡ false
IsServed env (inr s) =
    (load env.inputs env.env_lenient ≡ inr s.config)
    × IsEngineOf s.config.acl (inr s.engine)
    × (s.extractor ≡ extractor_of s.config)
    × IsBackendOf s.config.storage s.backend
    × (max_request_body_bytes env.inputs.parsers s.config ≡ some s.body_limit)

node_of-error :
    (env : ServeEnv) (c : Config) (e : ServeError) → node_of env c ≡ inl e → is_rejection e ≡ false
unfolding node_of
node_of-error env c e h = ground arith

engine_answer :
    (acl : Option AclConfig) (result : EngineError ⊎ Option Engine)
    → IsEngineOf acl result
    → (e : Option Engine) × (result ≡ inr e)
engine_answer none result h = (none, h)
engine_answer (some a) result (e, h, role, rules) = (some e, h)

from_test :
    (test : Bool) (this e : ServeError)
    → is_rejection this ≡ false
    → fail_if test this ≡ inl e
    → is_rejection e ≡ false
from_test test this e h failed = sym (ap is_rejection (fail_if-eq-inl test this e failed)) ∙ h

from_part :
    {F A : Type 0} (wrap : F → ServeError) (m : F ⊎ A) (e : ServeError)
    → ((f : F) → is_rejection (wrap f) ≡ false)
    → wrapped wrap m ≡ inl e
    → is_rejection e ≡ false
from_part wrap m e h failed =
    let (f, is) = wrapped-eq-inl wrap m e failed in sym (ap is_rejection is) ∙ h f

same_choice :
    (section : Storage) (choice built : BackendChoice) (found : Option BackendChoice)
    → found ≡ some choice
    → found ≡ some built
    → IsBackendOf section choice
    → IsBackendOf section built
same_choice section choice built found is is' asked =
    let same : choice ≡ built = cc in subst (IsBackendOf section) same asked

-- Whatever runServe is given, it fails with none of the errors of a backend name, an access rule, a
-- trusted proxy or a body limit, since what it has loaded has passed the checks; and where it does not
-- fail, its server has the backend that is named, with the settings of its section, and the access
-- rules, the trusted proxies and the body limit of the configuration that Load returns.
pub run_serve-IsServed : (env : ServeEnv) → IsServed env (run_serve env)
unfolding run_serve
run_serve-IsServed env =
    bind-either (IsServed env) (fail_if env.config_failed config_error) _
      (λ e failed. from_test env.config_failed config_error e refl failed)
      λ u1 r1.
        bind-either (IsServed env) (wrapped load_error (load env.inputs env.env_lenient)) _
          (λ e failed. from_part load_error (load env.inputs env.env_lenient) e (λ f. refl) failed)
          λ c loading.
            let loaded = wrapped-eq-inr load_error (load env.inputs env.env_lenient) c loading in
            let (given, is_given, acl_of, passed) = load_lem env.inputs env.env_lenient c loaded in
            let p = env.inputs.parsers in
            let (engine_is, extractor_is, backend_is) = validated-builds p c passed in
            let (choice, choice_is, named) = backend_is in
            let (engine, engine_made) = engine_answer c.acl (build_acl_engine c.acl) engine_is in
            let (limit, limit_is) = validate-body_limit p c passed in
            bind-either (IsServed env) (fail_if (not env.logger_ok) logger_error) _
              (λ e failed. from_test (not env.logger_ok) logger_error e refl failed)
              λ u2 r2.
                bind-either (IsServed env) (node_of env c) _
                  (λ e failed. node_of-error env c e failed)
                  λ node r3.
                    bind-either (IsServed env) (or_fail (build_backend c) unknown_backend) _
                      (λ e failed.
                        or_fail-not-inl (build_backend c) choice unknown_backend e choice_is failed)
                      λ built r4.
                        bind-either (IsServed env)
                          (fail_if (not (env.construct built)) backend_error) _
                          (λ e failed.
                            from_test (not (env.construct built)) backend_error e refl failed)
                          λ u3 r5.
                            bind-either (IsServed env)
                              (wrapped engine_error (build_acl_engine c.acl)) _
                              (λ e failed.
                                wrapped-not-inl engine_error (build_acl_engine c.acl) engine e
                                  engine_made failed)
                              λ made r6.
                                bind-either (IsServed env)
                                  (wrapped extractor_error (build_ip_extractor p c)) _
                                  (λ e failed.
                                    wrapped-not-inl extractor_error (build_ip_extractor p c)
                                      (extractor_of c) e extractor_is failed)
                                  λ extractor r7.
                                    bind-either (IsServed env)
                                      (or_fail (max_request_body_bytes p c) body_limit_error) _
                                      (λ e failed.
                                        or_fail-not-inl (max_request_body_bytes p c) limit
                                          body_limit_error e limit_is failed)
                                      λ body_limit r8. (
                                        loaded,
                                        subst (λ r. IsEngineOf c.acl r)
                                            (wrapped-eq-inr engine_error (build_acl_engine c.acl)
                                              made r6)
                                            engine_is,
                                        inr-injective extractor (extractor_of c) (
                                            sym (
                                              wrapped-eq-inr extractor_error
                                                (build_ip_extractor p c) extractor r7)
                                            ∙ extractor_is),
                                        same_choice c.storage choice built (build_backend c)
                                            choice_is
                                            (or_fail-eq-inr (build_backend c) unknown_backend built
                                              r4)
                                            named,
                                        or_fail-eq-inr (max_request_body_bytes p c) body_limit_error
                                            body_limit r8,
                                      )

no_engine :
    (acl : Option AclConfig) (e : Option Engine) → IsEngineOf acl (inr e) → e ≡ none → acl ≡ none
no_engine none e h absent = refl
no_engine (some a) e (engine, h, role, rules) absent =
    absurd (let k = inr-injective e (some engine) h in cc)

-- Serve runs without access rules only where the configuration names no ACL file, and has no access
-- configuration in which a default role, a rule, a trusted proxy, a DNS server or a cache time is set.
pub run_serve-unprotected :
    (env : ServeEnv) (s : Served)
    → run_serve env ≡ inr s
    → s.engine ≡ none
    → (given : Config) × (env.inputs.unmarshalled ≡ some given)
      × IsBlank given.acl
      × (s.config.acl_file ≡ [])
run_serve-unprotected env s running absent =
    let (loaded, engine_is, extractor_is, named, limit) : IsServed env (inr s) =
      subst (λ r. IsServed env r) running (run_serve-IsServed env) in
    let (given, is_given, acl_of, passed) = load_lem env.inputs env.env_lenient s.config loaded in
    let no_acl = no_engine s.config.acl s.engine engine_is absent in
    let (not_given, no_file) = unprotected given acl_of no_acl in
    (given, is_given, not_given, no_file)
  where
    unprotected :
        (given : Config)
        → IsAclOf env.inputs env.env_lenient given s.config
        → s.config.acl ≡ none
        → IsBlank given.acl × (s.config.acl_file ≡ [])
    unprotected given (inl (not_given, no_file, h)) no_acl = (not_given, no_file)
    unprotected given (inr (inl (a, b, r1, r2, r3, r4, present))) no_acl = absurd (cc)
    unprotected given (inr (inr (b, r1, r2, present))) no_acl = absurd (cc)
