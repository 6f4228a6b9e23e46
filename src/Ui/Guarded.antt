-- ===== src/Ui/Guarded.antt =====
-- What the web interface can change, and for whom.
use ts_restic_server.Common.{
  ◌≡◌, ◌≢◌, refl, ◌⊎◌, inl, inr, true, false, not, ◌||◌, Option, none, some, List, [], ◌++◌, arith,
  Bool-cases, Option-cases, Sum-cases,
}
use ts_restic_server.Common.Text.{Bytes, eqs, eqs_iff, join, cut_suffix, cut_suffix-append}
use ts_restic_server.Storage.{Backend, blob_locks, valid_blob_name}
use ts_restic_server.Middleware.RepoPrefix.{slash, split_repo_path}
use ts_restic_server.Ui.{
  UiHandler, UiRequest, Answer, unauthorized, repo_param, dashboard, repo_list, repo_detail,
}
use ts_restic_server.Ui.Routes.{
  delete_lock_suffix, valid_token, delete_lock_of, delete_lock, right_credentials, basic_auth,
  UiEndpoint, static_files, index_page, index_redirect, repos_list, repo_page, lock_form, action,
  serve_ui,
}

-- A deletion of one lock: what the request has, and the state after it.
pub record IsLockDeletion {S : Type 0} (h : UiHandler S) (c : UiRequest) (s s' : S) : Type 0 where
  pub below : Bytes
  pub segments : List Bytes
  pub deleter : Backend S
  pub token : Bytes
  pub param_is : c.param ≡ below ++ delete_lock_suffix
  pub accepted : split_repo_path below ≡ inr segments
  pub backend_is : h.backend ≡ some deleter
  pub cookie_is : c.cookie ≡ some token
  pub token_given : token ≢ []
  pub same_token : token ≡ c.form_token
  pub lock_named : valid_blob_name c.lock_name ≡ true
  pub effect : s' ≡ (deleter.delete_blob (join slash segments) blob_locks c.lock_name s).1

valid_token-cookie :
    (c : UiRequest)
    → valid_token c ≡ true
    → (token : Bytes) × (c.cookie ≡ some token) × (token ≢ []) × (token ≡ c.form_token)
unfolding valid_token
valid_token-cookie c h = elim (Option-cases c.cookie) [
  | inl absent ↦ absurd (let k = rw absent at h in cc)
  | inr (token, present) ↦
      let k : not (eqs token [] || not (eqs token c.form_token)) ≡ true = rw present at h in
      (
        token,
        present,
        λ nil. ground (arith, eqs_iff token []),
        ground (arith, eqs_iff token c.form_token),
      )
]

module _ {S : Type 0} (h : UiHandler S) where
  -- What a request may do to the state: nothing, or one lock's deletion.
  abbrev pub IsHarmless : UiRequest → S → S → Type 0
  IsHarmless c s s' = (s' ≡ s) ⊎ IsLockDeletion h c s s'

  -- Below an accepted path.
  delete_lock_of-IsHarmless :
      (c : UiRequest) (below : Bytes) (segments : List Bytes) (s : S)
      → c.param ≡ below ++ delete_lock_suffix
      → split_repo_path below ≡ inr segments
      → IsHarmless c s (delete_lock_of h (join slash segments) c s).1
  unfolding delete_lock_of
  delete_lock_of-IsHarmless c below segments s is accepted = elim (Bool-cases (valid_token c)) [
    | inr forged ↦ rw forged (inl refl)
    | inl valid ↦ elim (Bool-cases (valid_blob_name c.lock_name)) [
      | inr unnamed ↦ rw (valid, unnamed) (inl refl)
      | inl named ↦ elim (Option-cases h.backend) [
        | inl no_backend ↦ rw (valid, named, no_backend) (inl refl)
        | inr (b, present) ↦
            let (token, cookie, given, same) = valid_token-cookie c valid in
            inr (record {
              below = below;
              segments = segments;
              deleter = b;
              token = token;
              param_is = is;
              accepted = accepted;
              backend_is = present;
              cookie_is = cookie;
              token_given = given;
              same_token = same;
              lock_named = named;
              effect = rw (valid, named, present) refl;
            })
      ]
    ]
  ]

  delete_lock-IsHarmless : (c : UiRequest) (s : S) → IsHarmless c s (delete_lock h c s).1
  unfolding delete_lock repo_param
  delete_lock-IsHarmless c s = elim (Option-cases (cut_suffix c.param delete_lock_suffix)) [
    | inl elsewhere ↦ rw (elsewhere, delete_lock) (inl refl)
    | inr (below, found) ↦ elim (Sum-cases (split_repo_path below)) [
      | inl (e, rejected) ↦ rw (found, rejected, delete_lock) (inl refl)
      | inr (segments, accepted) ↦
          rw (found, accepted, delete_lock)
            (delete_lock_of-IsHarmless c below segments s
              (cut_suffix-append c.param delete_lock_suffix below found) accepted)
    ]
  ]

  repo_list-same : (c : UiRequest) (s : S) → (repo_list h c s).1 ≡ s
  unfolding repo_list
  repo_list-same c s = ground arith

  repo_detail-same : (c : UiRequest) (s : S) → (repo_detail h c s).1 ≡ s
  unfolding repo_detail
  repo_detail-same c s = ground arith

  -- Which request changes something.
  abbrev pub IsGuarded : UiEndpoint → UiRequest → S → S → Type 0
  IsGuarded endpoint c s s' = (s' ≡ s) ⊎ ((endpoint ≡ lock_form) × IsLockDeletion h c s s')

  pub action-IsGuarded :
      (endpoint : UiEndpoint) (c : UiRequest) (s : S)
      → IsGuarded endpoint c s (action h endpoint c s).1
  action-IsGuarded static_files c s = inl refl
  action-IsGuarded index_page c s = inl (unfold dashboard in refl)
  action-IsGuarded index_redirect c s = inl refl
  action-IsGuarded repos_list c s = inl (repo_list-same c s)
  action-IsGuarded repo_page c s = inl (repo_detail-same c s)
  action-IsGuarded lock_form c s = elim (delete_lock-IsHarmless c s) [
    | inl same ↦ inl same
    | inr deletion ↦ inr (refl, deletion)
  ]

  abbrev pub IsRefusedLogin : Bytes → Bytes → UiRequest → S → Answer × S → Type 0
  IsRefusedLogin user pass c s result =
      (user ≢ []) × (c.basic_auth ≢ some (user, pass)) × (result ≡ (unauthorized, s))

  abbrev pub IsServed : Bytes → Bytes → UiEndpoint → UiRequest → S → Answer × S → Type 0
  IsServed user pass endpoint c s result =
      ((user ≡ []) ⊎ (c.basic_auth ≡ some (user, pass)))
      × (result ≡ action h endpoint c s)
      × IsGuarded endpoint c s result.1

right_credentials_iff :
    (user pass : Bytes) (given : Option (Bytes × Bytes))
    → ((right_credentials user pass given ≡ true) × (given ≡ some (user, pass)))
      ⊎ ((right_credentials user pass given ≡ false) × (given ≢ some (user, pass)))
unfolding right_credentials
right_credentials_iff user pass none = inr (refl, λ e. cc)
right_credentials_iff user pass (some (u, p)) = ground (arith, eqs_iff u user, eqs_iff p pass)

-- A request to the web interface is answered as unauthorized and changes nothing, where a user name is
-- set and the request does not have it with its password. Any other request is served by the action
-- of its route, and it changes the state only where it is a lock form with a token that is not empty
-- and stands both in the cookie and in the form, with a valid lock name and an accepted path: then it is the
-- backend's deletion of that lock in the repository of that path.
pub serve_ui-guarded :
    {S : Type 0} (h : UiHandler S) (user pass : Bytes) (endpoint : UiEndpoint) (c : UiRequest)
    (s : S)
    → IsRefusedLogin h user pass c s (serve_ui h user pass endpoint c s)
      ⊎ IsServed h user pass endpoint c s (serve_ui h user pass endpoint c s)
unfolding serve_ui basic_auth
serve_ui-guarded h user pass endpoint c s = elim (Bool-cases (eqs user [])) [
  | inl no_user ↦
      rw no_user (inr (inl ((eqs_iff user []).0 no_user), refl, action-IsGuarded h endpoint c s))
  | inr closed ↦ elim (right_credentials_iff user pass c.basic_auth) [
    | inl (right, given) ↦
        rw (closed, right) (inr (inr given, refl, action-IsGuarded h endpoint c s))
    | inr (wrong, other) ↦
        rw (closed, wrong) (inl (λ e. ground (arith, eqs_iff user []), other, refl))
  ]
]
