-- ===== src/Tracked.antt =====
-- internal/storage/tracked/tracked.go: a backend that counts the traffic of each repository. A stream
-- is counted when it is closed.
pub mod Transparent
use ts_restic_server.Common.{ℕ, Bool, true, false, Option, none, some, List, [], ◌∷◌, if◌then◌else◌}
use ts_restic_server.Common.Text.{Bytes, codes}
use ts_restic_server.Storage.{Result, ok, err, panic, Reader, Saved, Backend, Blob}
use ts_restic_server.Stats.{Table, record_write, record_read, record_delete}

-- repoPath
unfoldable pub repo_path : Bytes → Bytes
repo_path [] = codes "/"
repo_path (c ∷ s) = c ∷ s

abbrev pub is_ok {ℓ} : {A : Type ℓ} → Result A → Bool
is_ok (ok _) = true
is_ok (err _) = false
is_ok panic = false

-- What was counted of a save is what the inner backend read; it is recorded if the save succeeded.
abbrev pub after_save : {S : Type 0} → Bool → Bytes → Table → Saved × S → Saved × S × Table
after_save available prefix t (saved, s) = (
  saved,
  s,
  if is_ok saved.result then record_write available t (repo_path prefix) saved.read else t,
)

abbrev pub after_delete :
    {S : Type 0} → Bool → Bytes → ℕ → Table → Result (Unit {0}) × S → Result (Unit {0}) × S × Table
after_delete available prefix size t (result, s) =
    (result, s, if is_ok result then record_delete available t (repo_path prefix) size else t)

module _ {S : Type 0} (inner : Backend S) (available : Bool) where
  unfoldable pub save_config : Bytes → Reader → S × Table → Saved × (S × Table)
  save_config prefix body (s, t) =
      let (saved, s', t') = after_save available prefix t (inner.save_config prefix body s) in
      (saved, (s', t'))

  unfoldable pub save_blob : Bytes → Bytes → Bytes → Reader → S × Table → Saved × (S × Table)
  save_blob prefix kind name body (s, t) =
      let (saved, s', t') =
        after_save available prefix t (inner.save_blob prefix kind name body s) in
      (saved, (s', t'))

  -- DeleteBlob after StatBlob: of an error the size is 0, and a panic passes through
  abbrev pub delete_sized :
      Bytes → Bytes → Bytes → Result ℕ → S × Table → Result (Unit {0}) × (S × Table)
  delete_sized prefix kind name (ok size) (s, t) =
      let (result, s', t') =
        after_delete available prefix size t (inner.delete_blob prefix kind name s) in
      (result, (s', t'))
  delete_sized prefix kind name (err _) (s, t) =
      let (result, s', t') =
        after_delete available prefix 0 t (inner.delete_blob prefix kind name s) in
      (result, (s', t'))
  delete_sized prefix kind name panic (s, t) = (panic, (s, t))

  unfoldable pub delete_blob : Bytes → Bytes → Bytes → S × Table → Result (Unit {0}) × (S × Table)
  delete_blob prefix kind name (s, t) =
      delete_sized prefix kind name (inner.stat_blob prefix kind name s) (s, t)

  -- statsReadCloser.Close of a stream of which `n` bytes were read
  unfoldable pub close_stream : Bytes → ℕ → S × Table → S × Table
  close_stream prefix n (s, t) = (s, record_read available t (repo_path prefix) n)

  abbrev pub beside : {A : Type 0} → Table → A × S → A × (S × Table)
  beside t (a, s) = (a, (s, t))

  -- The tracked backend as a storage.Backend.
  abbrev pub backend : Backend (S × Table)
  backend = record {
    create_repo = λ prefix st. beside st.1 (inner.create_repo prefix st.0);
    delete_repo = λ prefix st. beside st.1 (inner.delete_repo prefix st.0);
    stat_config = λ prefix st. inner.stat_config prefix st.0;
    get_config = λ prefix st. inner.get_config prefix st.0;
    save_config = save_config;
    stat_blob = λ prefix kind name st. inner.stat_blob prefix kind name st.0;
    get_blob =
        λ prefix kind name offset count st. inner.get_blob prefix kind name offset count st.0;
    save_blob = save_blob;
    delete_blob = delete_blob;
    list_blobs = λ prefix kind st. inner.list_blobs prefix kind st.0;
  }
