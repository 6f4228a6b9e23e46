-- ===== src/Commands/Started.antt =====
-- What serve has checked before it starts a node or a server.
use ts_restic_server.Common.{
  ◌≡◌, ◌≢◌, refl, ap, ◌∙◌, ◌⊎◌, inl, inr, Bool, true, false, ◌||◌, not, List, [], ◌∷◌, arith,
  Bool-cases, Sum-cases,
}
use ts_restic_server.Common.Text.{Bytes}
use ts_restic_server.Settings.{Config}
use ts_restic_server.TsAuth.{Key, KeyError, is_nil, resolve_auth_key, check_serve_startup}
use ts_restic_server.TsAuth.Wait.{
  WaitOptions, Event, next_failed, notified, Waited, needs_login, wait_running,
}
use ts_restic_server.Commands.Node.{
  NodeCall, started, closed, Outcomes, serve_sources, start_with_key, start_tailscale,
  watch_options, cancelled, watch_action,
}

-- Whether a node is left running after the calls.
abbrev pub left_running : Bool → List NodeCall → Bool
left_running now [] = now
left_running now (started hostname dir key ∷ calls) = left_running true calls
left_running now (closed ∷ calls) = left_running false calls
left_running now (call ∷ calls) = left_running now calls

abbrev pub succeeded : {E A : Type 0} → E ⊎ A → Bool
succeeded (inl e) = false
succeeded (inr a) = true

-- Nothing was done, or serve may log in or need not.
abbrev pub IsCareful : Config → Bool → KeyError ⊎ Key → List NodeCall → Type 0
IsCareful c state_exists resolved calls =
    (calls ≡ [])
    ⊎ ((key : Key) × (resolved ≡ inr key)
        × ((state_exists ≡ true) ⊎ (key.value ≢ []) ⊎ (c.tailscale.interactive_login ≡ true)))

may_start :
    (state_exists interactive : Bool) (key : Key)
    → check_serve_startup state_exists key interactive ≡ true
    → (state_exists ≡ true) ⊎ (key.value ≢ []) ⊎ (interactive ≡ true)
unfolding check_serve_startup
may_start true interactive key h = inl refl
may_start false true key h = inr (inr refl)
may_start false false key h = inr (inl (given key.value h))
  where
    given : (v : Bytes) → (false || not (is_nil v) || false) ≡ true → v ≢ []
    given [] h e = cc h
    given (c ∷ v) h e = cc e

start_with_key-IsCareful :
    (c : Config) (state_exists : Bool) (o : Outcomes) (key : Key)
    → let s = start_with_key c state_exists o key in
      IsCareful c state_exists (inr key) s.calls × (left_running false s.calls ≡ succeeded s.result)
unfolding start_with_key
start_with_key-IsCareful c state_exists o key =
    elim (Bool-cases (check_serve_startup state_exists key c.tailscale.interactive_login)) [
      | inr refused ↦ rw refused (inl refl, refl)
      | inl allowed ↦
          let reason = may_start state_exists c.tailscale.interactive_login key allowed in
          (inr (key, refl, reason), rw allowed (ground arith))
    ]

-- Serve makes no directory and starts no node unless there is node state, a key, or an interactive login
-- is allowed; and a node that was started is left running exactly if its start succeeds.
pub start_tailscale-IsCareful :
    (getenv : Bytes → Bytes) (raw : Bytes) (c : Config) (state_exists : Bool) (o : Outcomes)
    → IsCareful c state_exists
        (resolve_auth_key (serve_sources getenv c raw))
        (start_tailscale getenv raw c state_exists o).calls
      × (left_running false (start_tailscale getenv raw c state_exists o).calls
          ≡ succeeded (start_tailscale getenv raw c state_exists o).result)
unfolding start_tailscale
start_tailscale-IsCareful getenv raw c state_exists o =
    elim (Sum-cases (resolve_auth_key (serve_sources getenv c raw))) [
      | inl (e, failed) ↦ rw (failed, start_tailscale) (inl refl, refl)
      | inr (key, resolved) ↦
          rw (resolved, start_tailscale) (start_with_key-IsCareful c state_exists o key)
    ]

needs_login-forbidden :
    (opts : WaitOptions) (reported : Bool) (events : List Event)
    → (wait_running opts reported events).0 ≡ needs_login
    → opts.allow_interactive ≡ false
unfolding wait_running
needs_login-forbidden opts reported [] h = cc
needs_login-forbidden opts reported (next_failed ∷ events) h = cc
needs_login-forbidden opts reported (notified n ∷ events) h =
    ground
      (arith, needs_login-forbidden opts true events, needs_login-forbidden opts reported events)

watch_action-cancelled :
    (w : Waited) (context_done : Bool) → watch_action w context_done ≡ cancelled → w ≡ needs_login
unfolding watch_action
watch_action-cancelled w context_done h = ground arith

start_with_key-allowed :
    (c : Config) (state_exists : Bool) (o : Outcomes) (key found : Key)
    → (start_with_key c state_exists o key).result ≡ inr found
    → (key ≡ found) × (check_serve_startup state_exists key c.tailscale.interactive_login ≡ true)
unfolding start_with_key
start_with_key-allowed c state_exists o key found h =
    elim (Bool-cases (check_serve_startup state_exists key c.tailscale.interactive_login)) [
      | inr refused ↦ absurd (let k = rw (refused, start_with_key) at h in cc)
      | inl allowed ↦ (ground arith, allowed)
    ]

no_key :
    (v : Bytes) (interactive : Bool)
    → (interactive || not (is_nil v)) ≡ false
    → (v ≡ []) × (interactive ≡ false)
no_key [] interactive h = (refl, ground arith)
no_key (c ∷ v) interactive h = absurd (ground arith)

state_alone :
    (state_exists : Bool) (key : Key)
    → key.value ≡ []
    → check_serve_startup state_exists key false ≡ true
    → state_exists ≡ true
unfolding check_serve_startup
state_alone true key nil h = refl
state_alone false key nil h = absurd (let k = rw nil at h in cc)

-- The watcher cancels serve for a login only where the node was started from its state alone, without a
-- key and with no interactive login allowed.
pub watch-cancelled :
    (getenv : Bytes → Bytes) (raw : Bytes) (c : Config) (state_exists : Bool) (o : Outcomes)
    (key : Key) (events : List Event) (context_done : Bool)
    → (start_tailscale getenv raw c state_exists o).result ≡ inr key
    → watch_action
        (wait_running (watch_options c.tailscale.interactive_login key) false events).0
        context_done
      ≡ cancelled
    → (state_exists ≡ true) × (key.value ≡ []) × (c.tailscale.interactive_login ≡ false)
unfolding start_tailscale
watch-cancelled getenv raw c state_exists o key events context_done is_started is_cancelled =
    let opts = watch_options c.tailscale.interactive_login key in
    let forbidden =
      needs_login-forbidden opts false events
        (watch_action-cancelled (wait_running opts false events).0 context_done is_cancelled) in
    let (nil, not_interactive) = no_key key.value c.tailscale.interactive_login forbidden in
    elim (Sum-cases (resolve_auth_key (serve_sources getenv c raw))) [
      | inl (e, failed) ↦ absurd (let k = rw (failed, start_tailscale) at is_started in cc)
      | inr (found, resolved) ↦
          let (same, allowed) =
            start_with_key-allowed c state_exists o found key
              (rw (resolved, start_tailscale) at is_started) in
          (
            state_alone state_exists found (ap (λ k. k.value) same ∙ nil)
                (rw not_interactive at allowed),
            nil,
            not_interactive,
          )
    ]
