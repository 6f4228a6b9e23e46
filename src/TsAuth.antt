-- ===== src/TsAuth.antt =====
-- internal/tsauth/key.go and state.go: where the Tailscale auth key comes from, and whether serve
-- may start.
pub mod Precedence
pub mod Wait
pub mod Ending
use ts_restic_server.Common.{
  ℕ, Bool, true, false, ◌&&◌, ◌||◌, not, Option, none, some, List, [], ◌∷◌, ◌⊎◌, inl, inr, ◌==◌,
  if◌then◌else◌,
}
use ts_restic_server.Common.Int64.{lt64}
use ts_restic_server.Common.Text.{Bytes, codes, trim_space, contains}
use ts_restic_server.Storage.{Reader}

pub data Source : Type 0 where
  source_none source_flag source_stdin source_env source_config : Source

-- Source.String
unfoldable pub source_string : Source → Bytes
source_string source_none = codes "none"
source_string source_flag = codes "flag"
source_string source_stdin = codes "stdin"
source_string source_env = codes "environment"
source_string source_config = codes "config file"

pub record Key : Type 0 where
  pub value : Bytes
  pub source : Source

pub data KeyError : Type 0 where
  flag_and_stdin empty_stdin stdin_failed : KeyError

-- EnvVars
abbrev pub env_vars : List Bytes
env_vars = codes "TS_AUTHKEY" ∷ codes "TS_AUTH_KEY" ∷ codes "RESTIC_TAILSCALE_AUTH_KEY" ∷ []

pub record Sources : Type 0 where
  pub flag : Bytes
  pub stdin : Option Reader
  pub getenv : Option (Bytes → Bytes)
  pub config : Bytes
  pub config_raw : Bytes

abbrev pub is_nil : Bytes → Bool
is_nil [] = true
is_nil (_ ∷ _) = false

abbrev pub is_given : {A : Type 0} → Option A → Bool
is_given none = false
is_given (some _) = true

-- bufio.Reader.ReadString('\n'): the text up to and with the newline, and whether there is one
abbrev pub newline : ℕ
newline = 10

unfoldable pub first_line : Bytes → Bytes × Bool
first_line [] = ([], false)
first_line (c ∷ s) =
    let rest = first_line s in if c == newline then (c ∷ [], true) else (c ∷ rest.0, rest.1)

-- the key on standard input; the error of a reader that ends without a newline is EOF unless it
-- fails
unfoldable pub stdin_key : Reader → KeyError ⊎ Key
stdin_key r =
    let (line, ended) = first_line r.content in
    let v = trim_space line in
    if not ended && r.fails
    then inl stdin_failed
    else if is_nil v
    then inl empty_stdin
    else inr (record { value = v; source = source_stdin })

-- the loop over the environment variables
unfoldable pub env_key : (Bytes → Bytes) → List Bytes → Option Key
env_key getenv [] = none
env_key getenv (name ∷ names) =
    let v = trim_space (getenv name) in
    if is_nil v then env_key getenv names else some (record { value = v; source = source_env })

abbrev pub any_env_key : Option (Bytes → Bytes) → Option Key
any_env_key none = none
any_env_key (some getenv) = env_key getenv env_vars

-- the config file, and no key at all
abbrev pub placeholder : Bytes
placeholder = codes "${"

unfoldable pub config_key : Sources → Key
config_key s =
    let v = trim_space s.config in
    if not (is_nil v) && not (contains v placeholder)
    then (if contains s.config_raw placeholder
        then record { value = v; source = source_env }
        else record { value = v; source = source_config })
    else record { value = []; source = source_none }

abbrev pub or_config_key : Sources → Option Key → Key
or_config_key s none = config_key s
or_config_key s (some k) = k

-- the sources behind the flag
abbrev pub key_from : Sources → Option Reader → KeyError ⊎ Key
key_from s (some r) = stdin_key r
key_from s none = inr (or_config_key s (any_env_key s.getenv))

-- ResolveAuthKey
unfoldable pub resolve_auth_key : Sources → KeyError ⊎ Key
resolve_auth_key s =
    if not (is_nil s.flag) && is_given s.stdin
    then inl flag_and_stdin
    else (let v = trim_space s.flag in
        if is_nil v then key_from s s.stdin else inr (record { value = v; source = source_flag }))

-- CheckServeStartup; true where serve may start
unfoldable pub check_serve_startup : Bool → Key → Bool → Bool
check_serve_startup state_exists key interactive =
    state_exists || not (is_nil key.value) || interactive

pub data Warning : Type 0 where
  key_no_longer_needed key_not_recommended : Warning

abbrev pub is_config : Source → Bool
is_config source_config = true
is_config _ = false

-- ServeWarnings
unfoldable pub serve_warnings : Bool → Key → List Warning
serve_warnings state_exists key =
    if not (is_config key.source)
    then []
    else if state_exists
    then key_no_longer_needed ∷ []
    else key_not_recommended ∷ []

-- What os.Stat answers of a file, as far as it is read.
pub record FileInfo : Type 0 where
  pub is_regular : Bool
  pub size : ℕ

abbrev pub state_file_name : Bytes
state_file_name = codes "tailscaled.state"

-- StateExists; filepath.Join is a parameter, and an error of os.Stat is `none`
unfoldable pub state_exists : (Bytes → Option FileInfo) → (Bytes → Bytes → Bytes) → Bytes → Bool
unfolding lt64
state_exists stat path_join dir = elim (stat (path_join dir state_file_name)) [
  | none ↦ false
  | some info ↦ info.is_regular && lt64 0 info.size
]
