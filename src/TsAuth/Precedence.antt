-- ===== src/TsAuth/Precedence.antt =====
-- What ResolveAuthKey answers.
use ts_restic_server.Common.{
  ◌≡◌, refl, ◌⊎◌, inl, inr, ◌↔◌, true, false, Option, none, some, List, [], ◌∷◌, arith, Bool-cases,
}
use ts_restic_server.Common.Text.{Bytes, trim_space, contains}
use ts_restic_server.Storage.{Reader}
use ts_restic_server.TsAuth.{
  source_none, source_env, source_config, Key, KeyError, Sources, is_nil, stdin_key, env_key,
  any_env_key, config_key, or_config_key, key_from, resolve_auth_key, placeholder, env_vars,
}

-- A key has a source exactly if it has a value.
abbrev pub IsProper : Key → Type 0
IsProper k = (is_nil k.value ≡ true) ↔ (k.source ≡ source_none)

-- A proper answer: an error, or a proper key.
abbrev pub IsProperAnswer : KeyError ⊎ Key → Type 0
IsProperAnswer (inl e) = Unit
IsProperAnswer (inr k) = IsProper k

stdin_key-IsProperAnswer : (r : Reader) → IsProperAnswer (stdin_key r)
unfolding stdin_key
stdin_key-IsProperAnswer r = ground arith

-- Every key that the environment gives has a value.
abbrev IsEnvKey : Option Key → Type 0
IsEnvKey none = Unit
IsEnvKey (some k) = (is_nil k.value ≡ false) × (k.source ≡ source_env)

env_key-IsEnvKey : (getenv : Bytes → Bytes) (names : List Bytes) → IsEnvKey (env_key getenv names)
unfolding env_key
env_key-IsEnvKey getenv [] = tt
env_key-IsEnvKey getenv (name ∷ names) = elim (Bool-cases (is_nil (trim_space (getenv name)))) [
  | inl empty ↦ rw empty (env_key-IsEnvKey getenv names)
  | inr given ↦ rw given (given, refl)
]

any_env_key-IsEnvKey : (getenv : Option (Bytes → Bytes)) → IsEnvKey (any_env_key getenv)
any_env_key-IsEnvKey none = tt
any_env_key-IsEnvKey (some getenv) = env_key-IsEnvKey getenv env_vars

config_key-IsProper : (s : Sources) → IsProper (config_key s)
unfolding config_key
config_key-IsProper s = ground arith

or_config_key-IsProper : (s : Sources) (o : Option Key) → IsEnvKey o → IsProper (or_config_key s o)
or_config_key-IsProper s none h = config_key-IsProper s
or_config_key-IsProper s (some k) (given, source) = ground arith

key_from-IsProperAnswer : (s : Sources) (stdin : Option Reader) → IsProperAnswer (key_from s stdin)
key_from-IsProperAnswer s (some r) = stdin_key-IsProperAnswer r
key_from-IsProperAnswer s none =
    or_config_key-IsProper s (any_env_key s.getenv) (any_env_key-IsEnvKey s.getenv)

-- Whatever the sources hold, a key that is returned has the source "none" exactly if it is empty.
pub resolve_auth_key-IsProperAnswer : (s : Sources) → IsProperAnswer (resolve_auth_key s)
unfolding resolve_auth_key
resolve_auth_key-IsProperAnswer s = ground (arith, key_from-IsProperAnswer s s.stdin)

-- A key that is taken from the config has no unresolved placeholder, and its source is the config
-- file only if the raw value has none either.
pub config_key-resolved :
    (s : Sources)
    → is_nil (config_key s).value ≡ false
    → (contains (config_key s).value placeholder ≡ false)
      × (((config_key s).source ≡ source_config) ↔ (contains s.config_raw placeholder ≡ false))
unfolding config_key
config_key-resolved s h = ground arith
