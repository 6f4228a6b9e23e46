-- ===== src/Tracked/Transparent.antt =====
-- Tracking does not show in the storage where StatBlob of the wrapped backend does not panic: that
-- backend runs as it would alone.
use ts_restic_server.Common.{ℕ, ◌≡◌, ◌≢◌, refl, Bool, List}
use ts_restic_server.Common.Text.{Bytes}
use ts_restic_server.Storage.{Result, ok, err, panic, Backend, Call, after_calls}
use ts_restic_server.Storage.Wrapper.{project, IsWrapper, after_calls-wrapper}
use ts_restic_server.Stats.{Table}
use ts_restic_server.Tracked.{delete_sized, save_config, save_blob, delete_blob, backend}

-- StatBlob returns, with a size or an error.
abbrev pub IsReturning : {S : Type 0} → Backend S → Type 0
IsReturning {S = S} b = (key kind name : Bytes) (s : S) → b.stat_blob key kind name s ≢ panic

module _ {S : Type 0} (inner : Backend S) (available : Bool) (returning : IsReturning inner) where
  delete_sized-inner :
      (key kind name : Bytes) (size : Result ℕ) (st : S × Table)
      → size ≢ panic
      → project (λ st. st.0) (delete_sized inner available key kind name size st)
        ≡ inner.delete_blob key kind name st.0
  delete_sized-inner key kind name (ok n) st n_panic = refl
  delete_sized-inner key kind name (err e) st n_panic = refl
  delete_sized-inner key kind name panic st n_panic = absurd (n_panic refl)

  -- The tracked backend answers as the one that it wraps, whether the statistics can be written or
  -- not.
  pub backend-IsWrapper : IsWrapper inner (backend inner available) (λ st. st.0)
  unfolding save_config save_blob delete_blob
  backend-IsWrapper = record {
    create_repo = λ key st. refl;
    delete_repo = λ key st. refl;
    stat_config = λ key st. refl;
    get_config = λ key st. refl;
    save_config = λ key body st. refl;
    stat_blob = λ key kind name st. refl;
    get_blob = λ key kind name offset count st. refl;
    save_blob = λ key kind name body st. refl;
    delete_blob = λ key kind name st.
        delete_sized-inner key kind name (inner.stat_blob key kind name st.0) st
          (returning key kind name st.0);
    list_blobs = λ key kind st. refl;
  }

  -- After any calls the wrapped backend has the state that it would have without the tracking,
  -- whether the statistics can be written or not.
  pub after_calls-inner :
      (cs : List Call) (s : S) (t : Table)
      → (after_calls (backend inner available) cs (s, t)).0 ≡ after_calls inner cs s
  after_calls-inner cs s t = after_calls-wrapper backend-IsWrapper cs (s, t)
