-- ===== src/Commands/Registered.antt =====
-- What init does before it starts a node, and what it has done when it succeeds.
use ts_restic_server.Common.{
  ◌≡◌, ◌≢◌, refl, ◌⊎◌, inl, inr, Bool, true, false, ◌&&◌, not, none, List, [], ◌∷◌, arith,
  if◌then◌else◌, Bool-cases, Option-cases, Sum-cases,
}
use ts_restic_server.Common.Text.{Bytes}
use ts_restic_server.Settings.{Config}
use ts_restic_server.Config.{validate_for_init}
use ts_restic_server.Config.Load.{LoadError}
use ts_restic_server.TsAuth.{Key, is_nil, resolve_auth_key}
use ts_restic_server.TsAuth.Wait.{Waited, is_running, wait_running}
use ts_restic_server.Commands.Started.{left_running}
use ts_restic_server.Commands.Init.{
  InitEnv, InitError, Registered, Init, init_sources, wait_error, certified, registered, after_wait,
  wait_options, start_node, init_with_key, init_checked, init_loaded, init_of, run_init,
}

-- A node that is registered runs, and the certificate of its domain was fetched.
abbrev pub IsOutcome : InitEnv → Bool → InitError ⊎ Registered → Type 0
IsOutcome env state_existed (inl e) = Unit
IsOutcome env state_existed (inr r) =
    ((wait_running wait_options false env.events).0 ≡ is_running)
    × (env.cert_pair r.domain ≡ true)
    × (r.already ≡ (state_existed && not env.force))

-- Init has done nothing, or it had a key or node state, and a key where a login is forced; its calls
-- end with the node closed.
abbrev pub IsCarefulInit : InitEnv → Init → Type 0
IsCarefulInit env i =
    ((i.calls ≡ []) × ((e : InitError) × (i.result ≡ inl e)))
    ⊎ ((c : Config) × (key : Key) × (env.loaded ≡ inr c)
        × (validate_for_init c ≡ none)
        × (resolve_auth_key (init_sources env c) ≡ inr key)
        × ((key.value ≢ [])
            ⊎ ((env.force ≡ false) × (env.state_exists c.tailscale.state_dir ≡ true)))
        × (left_running false i.calls ≡ false)
        × IsOutcome env (env.state_exists c.tailscale.state_dir) i.result)

wait_error-none :
    (env : InitEnv) (key : Key) (w : Waited) → wait_error env key w ≡ none → w ≡ is_running
unfolding wait_error
wait_error-none env key w h = ground arith

certified-IsOutcome :
    (env : InitEnv) (state_existed : Bool) (ips domains : List Bytes)
    → (wait_running wait_options false env.events).0 ≡ is_running
    → IsOutcome env state_existed (certified env state_existed ips domains)
unfolding certified
certified-IsOutcome env state_existed ips [] up = tt
certified-IsOutcome env state_existed ips (domain ∷ domains) up =
    elim (Bool-cases (env.cert_pair domain)) [
      | inl fetched ↦ rw fetched (up, fetched, refl)
      | inr refused ↦ rw refused tt
    ]

after_wait-IsOutcome :
    (env : InitEnv) (state_existed : Bool) (key : Key)
    → IsOutcome env state_existed
        (after_wait env state_existed key (wait_running wait_options false env.events).0)
unfolding after_wait registered
after_wait-IsOutcome env state_existed key =
    let waited = (wait_running wait_options false env.events).0 in
    elim (Option-cases (wait_error env key waited)) [
      | inr (e, ended) ↦ rw (ended, after_wait) tt
      | inl up ↦ elim (Option-cases env.status) [
        | inl unknown ↦ rw (up, after_wait, unknown, registered) tt
        | inr (ips, known) ↦
            rw (up, after_wait, known, registered)
              (certified-IsOutcome env state_existed ips env.cert_domains
                (wait_error-none env key waited up))
      ]
    ]

start_node-closed :
    (env : InitEnv) (c : Config) (state_existed : Bool) (key : Key)
    → (left_running false (start_node env c state_existed key).calls ≡ false)
      × IsOutcome env state_existed (start_node env c state_existed key).result
unfolding start_node
start_node-closed env c state_existed key = elim (Bool-cases env.outcomes.mkdir_ok) [
  | inr no_dir ↦ rw no_dir (refl, tt)
  | inl dir ↦ elim (Bool-cases env.outcomes.local_client_ok) [
    | inr no_client ↦ rw (dir, no_client) (ground arith, tt)
    | inl client ↦ elim (Bool-cases env.outcomes.watch_ok) [
      | inr no_watch ↦ rw (dir, client, no_watch) (ground arith, tt)
      | inl watch ↦
          rw (dir, client, watch) (ground arith, after_wait-IsOutcome env state_existed key)
    ]
  ]
]

given_key :
    (force state_existed : Bool) (v : Bytes)
    → (force && is_nil v) ≡ false
    → (not state_existed && is_nil v) ≡ false
    → (v ≢ []) ⊎ ((force ≡ false) × (state_existed ≡ true))
given_key force state_existed [] h k = inr (ground arith, ground arith)
given_key force state_existed (c ∷ v) h k = inl (λ e. cc e)

init_with_key-IsCareful :
    (env : InitEnv) (c : Config) (key : Key)
    → env.loaded ≡ inr c
    → validate_for_init c ≡ none
    → resolve_auth_key (init_sources env c) ≡ inr key
    → IsCarefulInit env (init_with_key env c (env.state_exists c.tailscale.state_dir) key)
unfolding init_with_key
init_with_key-IsCareful env c key loaded valid resolved =
    let existed = env.state_exists c.tailscale.state_dir in
    elim (Bool-cases (env.force && is_nil key.value)) [
      | inl forced ↦ rw forced (inl (refl, (InitError.force_without_key, refl)))
      | inr has_key ↦ elim (Bool-cases (not existed && is_nil key.value)) [
        | inl bare ↦ rw (has_key, bare) (inl (refl, (InitError.no_key_and_no_state, refl)))
        | inr usable ↦
            let (ending, outcome) = start_node-closed env c existed key in
            rw (has_key, usable)
              (inr (
                c,
                key,
                loaded,
                valid,
                resolved,
                given_key env.force existed key.value has_key usable,
                ending,
                outcome,
              ))
      ]
    ]

init_checked-IsCareful :
    (env : InitEnv) (c : Config)
    → env.loaded ≡ inr c
    → validate_for_init c ≡ none
    → IsCarefulInit env (init_checked env c)
unfolding init_checked
init_checked-IsCareful env c loaded valid =
    elim (Sum-cases (resolve_auth_key (init_sources env c))) [
      | inl (e, bad_key) ↦ rw (bad_key, init_checked) (inl (refl, (InitError.key_rejected e, refl)))
      | inr (key, resolved) ↦
          rw (resolved, init_checked) (init_with_key-IsCareful env c key loaded valid resolved)
    ]

init_loaded-IsCareful :
    (env : InitEnv) (c : Config) → env.loaded ≡ inr c → IsCarefulInit env (init_loaded env c)
unfolding init_loaded
init_loaded-IsCareful env c loaded = elim (Option-cases (validate_for_init c)) [
  | inl valid ↦ rw (valid, init_loaded) (init_checked-IsCareful env c loaded valid)
  | inr (e, bad) ↦ rw (bad, init_loaded) (inl (refl, (InitError.invalid e, refl)))
]

init_of-IsCareful :
    (env : InitEnv) (loaded : LoadError ⊎ Config)
    → env.loaded ≡ loaded
    → IsCarefulInit env (init_of env loaded)
init_of-IsCareful env (inl e) is = inl (refl, (InitError.load_error e, refl))
init_of-IsCareful env (inr c) is = init_loaded-IsCareful env c is

IsCareful-if :
    (env : InitEnv) (test : Bool) (x y : Init)
    → IsCarefulInit env x
    → IsCarefulInit env y
    → IsCarefulInit env (if test then x else y)
IsCareful-if env true x y h k = h
IsCareful-if env false x y h k = k

-- Init makes no directory and starts no node unless its configuration has passed and there is a key, or,
-- where no login is forced, node state. A node that it starts is closed again at its end. Where it
-- succeeds, the node was running and the certificate of its domain was fetched, and it says that the
-- node was there before exactly if there was state and no login was forced.
pub run_init-IsCareful : (env : InitEnv) → IsCarefulInit env (run_init env)
unfolding run_init
run_init-IsCareful env =
    IsCareful-if env env.config_failed _ _ (inl (refl, (InitError.config_error, refl)))
      (init_of-IsCareful env env.loaded refl)
