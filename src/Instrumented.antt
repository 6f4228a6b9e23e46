-- ===== src/Instrumented.antt =====
-- internal/storage/instrumented/instrumented.go: a backend that counts its calls and their results.
-- The duration of a call is a parameter; the collectors of Prometheus are a list of observations.
use ts_restic_server.Common.{ℕ, refl, List, ◌∷◌}
use ts_restic_server.Common.Text.{Bytes, codes}
use ts_restic_server.Storage.{Result, ok, err, panic, Reader, Saved, Backend, Blob}
use ts_restic_server.Storage.Wrapper.{IsWrapper}

-- What observe hands to the two collectors: the labels operation, backend and result, and the seconds.
pub record Observation : Type 0 where
  pub op : Bytes
  pub backend_name : Bytes
  pub outcome : Bytes
  pub duration : ℕ

module _ {S : Type 0} (inner : Backend S) (backend_name : Bytes) (duration : S → ℕ) where
  abbrev observation : Bytes → Bytes → S → Observation
  observation op outcome s = record {
    op = op;
    backend_name = backend_name;
    outcome = outcome;
    duration = duration s;
  }

  -- observe; a panic of the wrapped backend skips the call
  unfoldable pub observe {ℓ} :
      {A : Type ℓ} → Bytes → S → Result A → List Observation → List Observation
  observe op s (ok _) os = observation op (codes "success") s ∷ os
  observe op s (err _) os = observation op (codes "error") s ∷ os
  observe op s panic os = os

  abbrev pub State : Type 0
  State = S × List Observation

  unfoldable pub create_repo : Bytes → State → Result (Unit {0}) × State
  unfolding observe
  create_repo key (s, os) =
      let (result, s') = inner.create_repo key s in
      (result, (s', observe (codes "CreateRepo") s result os))

  unfoldable pub delete_repo : Bytes → State → Result (Unit {0}) × State
  unfolding observe
  delete_repo key (s, os) =
      let (result, s') = inner.delete_repo key s in
      (result, (s', observe (codes "DeleteRepo") s result os))

  unfoldable pub stat_config : Bytes → State → Result ℕ × State
  unfolding observe
  stat_config key (s, os) =
      let size = inner.stat_config key s in (size, (s, observe (codes "StatConfig") s size os))

  unfoldable pub get_config : Bytes → State → Result Bytes × State
  unfolding observe
  get_config key (s, os) =
      let rc = inner.get_config key s in (rc, (s, observe (codes "GetConfig") s rc os))

  unfoldable pub save_config : Bytes → Reader → State → Saved × State
  unfolding observe
  save_config key body (s, os) =
      let (saved, s') = inner.save_config key body s in
      (saved, (s', observe (codes "SaveConfig") s saved.result os))

  unfoldable pub stat_blob : Bytes → Bytes → Bytes → State → Result ℕ × State
  unfolding observe
  stat_blob key t name (s, os) =
      let size = inner.stat_blob key t name s in (size, (s, observe (codes "StatBlob") s size os))

  unfoldable pub get_blob : Bytes → Bytes → Bytes → ℕ → ℕ → State → Result Bytes × State
  unfolding observe
  get_blob key t name offset count (s, os) =
      let rc = inner.get_blob key t name offset count s in
      (rc, (s, observe (codes "GetBlob") s rc os))

  unfoldable pub save_blob : Bytes → Bytes → Bytes → Reader → State → Saved × State
  unfolding observe
  save_blob key t name body (s, os) =
      let (saved, s') = inner.save_blob key t name body s in
      (saved, (s', observe (codes "SaveBlob") s saved.result os))

  unfoldable pub delete_blob : Bytes → Bytes → Bytes → State → Result (Unit {0}) × State
  unfolding observe
  delete_blob key t name (s, os) =
      let (result, s') = inner.delete_blob key t name s in
      (result, (s', observe (codes "DeleteBlob") s result os))

  unfoldable pub list_blobs : Bytes → Bytes → State → Result (List Blob) × State
  unfolding observe
  list_blobs key t (s, os) =
      let blobs = inner.list_blobs key t s in (blobs, (s, observe (codes "ListBlobs") s blobs os))

  -- The instrumented backend as a storage.Backend, whose reads have no state to leave their
  -- observations in: those that the calls above make of a read are left out here.
  abbrev pub backend : Backend State
  backend = record {
    create_repo = create_repo;
    delete_repo = delete_repo;
    stat_config = λ key st. (stat_config key st).0;
    get_config = λ key st. (get_config key st).0;
    save_config = save_config;
    stat_blob = λ key t name st. (stat_blob key t name st).0;
    get_blob = λ key t name offset count st. (get_blob key t name offset count st).0;
    save_blob = save_blob;
    delete_blob = delete_blob;
    list_blobs = λ key t st. (list_blobs key t st).0;
  }

  pub backend-IsWrapper : IsWrapper inner backend (λ st. st.0)
  unfolding create_repo delete_repo stat_config get_config save_config stat_blob get_blob save_blob
      delete_blob list_blobs
  backend-IsWrapper = record {
    create_repo = λ key st. refl;
    delete_repo = λ key st. refl;
    stat_config = λ key st. refl;
    get_config = λ key st. refl;
    save_config = λ key body st. refl;
    stat_blob = λ key t name st. refl;
    get_blob = λ key t name offset count st. refl;
    save_blob = λ key t name body st. refl;
    delete_blob = λ key t name st. refl;
    list_blobs = λ key t st. refl;
  }
