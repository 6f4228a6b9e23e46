-- ===== src/Storage/Wrapper.antt =====
-- The interface between a backend and one that wraps it, as those of internal/storage/tracked and
-- internal/storage/instrumented do: `inner_state` is what the wrapped backend has of the state.
use ts_restic_server.Common.{ℕ, ◌≡◌, refl, ap, ◌∙◌, List, [], ◌∷◌}
use ts_restic_server.Common.Text.{Bytes}
use ts_restic_server.Storage.{
  Backend, Reader, Call, create_call, delete_call, save_config_call, save_blob_call,
  delete_blob_call, after_call, after_calls,
}

abbrev pub project : {A S T : Type 0} → (T → S) → A × T → A × S
project f (a, t) = (a, f t)

-- Each method answers what the wrapped backend answers, and does to its state what that does.
pub record IsWrapper {S T : Type 0} (inner : Backend S) (outer : Backend T) (inner_state : T → S)
    : Type 0 where
  pub create_repo :
      (key : Bytes) (t : T)
      → project inner_state (outer.create_repo key t) ≡ inner.create_repo key (inner_state t)
  pub delete_repo :
      (key : Bytes) (t : T)
      → project inner_state (outer.delete_repo key t) ≡ inner.delete_repo key (inner_state t)
  pub stat_config :
      (key : Bytes) (t : T) → outer.stat_config key t ≡ inner.stat_config key (inner_state t)
  pub get_config :
      (key : Bytes) (t : T) → outer.get_config key t ≡ inner.get_config key (inner_state t)
  pub save_config :
      (key : Bytes) (body : Reader) (t : T)
      → project inner_state (outer.save_config key body t)
        ≡ inner.save_config key body (inner_state t)
  pub stat_blob :
      (key kind name : Bytes) (t : T)
      → outer.stat_blob key kind name t ≡ inner.stat_blob key kind name (inner_state t)
  pub get_blob :
      (key kind name : Bytes) (offset count : ℕ) (t : T)
      → outer.get_blob key kind name offset count t
        ≡ inner.get_blob key kind name offset count (inner_state t)
  pub save_blob :
      (key kind name : Bytes) (body : Reader) (t : T)
      → project inner_state (outer.save_blob key kind name body t)
        ≡ inner.save_blob key kind name body (inner_state t)
  pub delete_blob :
      (key kind name : Bytes) (t : T)
      → project inner_state (outer.delete_blob key kind name t)
        ≡ inner.delete_blob key kind name (inner_state t)
  pub list_blobs :
      (key kind : Bytes) (t : T)
      → outer.list_blobs key kind t ≡ inner.list_blobs key kind (inner_state t)

-- A backend wraps itself.
pub IsWrapper-self : {S : Type 0} (b : Backend S) → IsWrapper b b (λ s. s)
IsWrapper-self b = record {
  create_repo = λ key t. refl;
  delete_repo = λ key t. refl;
  stat_config = λ key t. refl;
  get_config = λ key t. refl;
  save_config = λ key body t. refl;
  stat_blob = λ key kind name t. refl;
  get_blob = λ key kind name offset count t. refl;
  save_blob = λ key kind name body t. refl;
  delete_blob = λ key kind name t. refl;
  list_blobs = λ key kind t. refl;
}

-- A wrapper of a wrapper wraps what that wraps.
pub IsWrapper-trans :
    {S T U : Type 0} {a : Backend S} {b : Backend T} {c : Backend U} {f : T → S} {g : U → T}
    → IsWrapper a b f
    → IsWrapper b c g
    → IsWrapper a c (λ u. f (g u))
IsWrapper-trans {f = f} {g = g} v w = record {
  create_repo = λ key u. ap (λ x. project f x) (w.create_repo key u) ∙ v.create_repo key (g u);
  delete_repo = λ key u. ap (λ x. project f x) (w.delete_repo key u) ∙ v.delete_repo key (g u);
  stat_config = λ key u. w.stat_config key u ∙ v.stat_config key (g u);
  get_config = λ key u. w.get_config key u ∙ v.get_config key (g u);
  save_config =
      λ key body u. ap (λ x. project f x) (w.save_config key body u) ∙ v.save_config key body (g u);
  stat_blob = λ key kind name u. w.stat_blob key kind name u ∙ v.stat_blob key kind name (g u);
  get_blob = λ key kind name offset count u.
      w.get_blob key kind name offset count u ∙ v.get_blob key kind name offset count (g u);
  save_blob = λ key kind name body u.
      ap (λ x. project f x) (w.save_blob key kind name body u)
      ∙ v.save_blob key kind name body (g u);
  delete_blob = λ key kind name u.
      ap (λ x. project f x) (w.delete_blob key kind name u) ∙ v.delete_blob key kind name (g u);
  list_blobs = λ key kind u. w.list_blobs key kind u ∙ v.list_blobs key kind (g u);
}

module _ {S T : Type 0} {inner : Backend S} {outer : Backend T} {f : T → S}
    (w : IsWrapper inner outer f) where
  after_call-wrapper : (c : Call) (t : T) → f (after_call outer c t) ≡ after_call inner c (f t)
  after_call-wrapper (create_call key) t = ap (λ x. x.1) (w.create_repo key t)
  after_call-wrapper (delete_call key) t = ap (λ x. x.1) (w.delete_repo key t)
  after_call-wrapper (save_config_call key body) t = ap (λ x. x.1) (w.save_config key body t)
  after_call-wrapper (save_blob_call key kind name body) t =
      ap (λ x. x.1) (w.save_blob key kind name body t)
  after_call-wrapper (delete_blob_call key kind name) t =
      ap (λ x. x.1) (w.delete_blob key kind name t)

  -- After any calls the wrapped backend has the state that it would have alone.
  pub after_calls-wrapper :
      (cs : List Call) (t : T) → f (after_calls outer cs t) ≡ after_calls inner cs (f t)
  unfolding after_calls
  after_calls-wrapper [] t = refl
  after_calls-wrapper (c ∷ cs) t =
      after_calls-wrapper cs (after_call outer c t)
      ∙ ap (λ x. after_calls inner cs x) (after_call-wrapper c t)
