-- ===== src/Filesystem/Saved.antt =====
-- A blob that is new to the backend of internal/storage/filesystem/filesystem.go is read as it was
-- saved, and a save that finds its path taken writes nothing.
use ts_restic_server.Common.{
  ◌≡◌, ◌⊎◌, inl, inr, true, false, ◌&&◌, Option, none, some, [], Bool-cases, Option-cases, ap,
  subst, sym,
}
use ts_restic_server.Common.Int64.{lt64}
use ts_restic_server.Common.Text.{Bytes}
use ts_restic_server.Common.Paths.{dir_of}
use ts_restic_server.Storage.{Error, ok, err, Reader}
use ts_restic_server.Files.{Files}
use ts_restic_server.Files.Program.{call, outcome, final, >>=-eq-ok}
use ts_restic_server.Files.Laws.{IsLawful}
use ts_restic_server.Filesystem.{
  Filesystem, blob_path, unsharded_path, is_sharded, validate_path, get_blob,
}
use ts_restic_server.Filesystem.Writes.{atomic_write}
use ts_restic_server.Filesystem.Blobs.{is_there, write_blob, unless_unsharded, save_blob}
use ts_restic_server.Filesystem.Atomic.{atomic_write_ok}

module _ {S : Type 0} (f : Files S) (b : Filesystem) (prefix t name : Bytes) (body : Reader)
    (s : S) where
  -- No entry has the path of the blob, nor its unsharded path where there is one.
  pub record IsNew : Type 0 where
    pub absent : is_there f b (f.lstat (blob_path b prefix t name) s) ≡ false
    pub absent_unsharded :
        (is_sharded t name && is_there f b (f.lstat (unsharded_path b prefix name) s)) ≡ false

  new_unsharded :
      IsNew
      → unless_unsharded f b prefix t name body s
        ≡ write_blob f b (blob_path b prefix t name) body s
  new_unsharded new = elim (Bool-cases (is_sharded t name)) [
    | inl sharded ↦ rw (sharded, rw sharded at new.absent_unsharded)
    | inr flat ↦ rw flat
  ]

  -- Behind the checks a save of a new blob is a write.
  save_blob-new :
      IsNew
      → validate_path f b (blob_path b prefix t name) s ≡ none
      → save_blob f b prefix t name body s ≡ write_blob f b (blob_path b prefix t name) body s
  unfolding save_blob
  save_blob-new new valid = rw (valid, new.absent) (new_unsharded new)

  -- A save whose path is invalid fails.
  save_blob-invalid :
      (e : Error)
      → validate_path f b (blob_path b prefix t name) s ≡ some e
      → save_blob f b prefix t name body s ≡ ([], err e, s)
  unfolding save_blob
  save_blob-invalid e invalid = rw invalid

  save_blob-valid :
      outcome (save_blob f b prefix t name body) s ≡ ok tt
      → validate_path f b (blob_path b prefix t name) s ≡ none
  save_blob-valid saved = elim (Option-cases (validate_path f b (blob_path b prefix t name) s)) [
    | inl valid ↦ valid
    | inr (e, invalid) ↦ cc (saved, ap (λ run. run.1) (save_blob-invalid e invalid))
  ]

  -- A save for which the path of the blob or its unsharded path is taken, by a file or a directory,
  -- answers success, changes nothing and has not looked at the body.
  pub save_blob-skips :
      validate_path f b (blob_path b prefix t name) s ≡ none
      → (is_there f b (f.lstat (blob_path b prefix t name) s) ≡ true)
        ⊎ ((is_sharded t name ≡ true)
            × (is_there f b (f.lstat (unsharded_path b prefix name) s) ≡ true))
      → save_blob f b prefix t name body s ≡ ([], ok tt, s)
  unfolding save_blob
  save_blob-skips valid (inl there) = rw (valid, there)
  save_blob-skips valid (inr (sharded, there)) =
      elim (Bool-cases (is_there f b (f.lstat (blob_path b prefix t name) s))) [
        | inl itself ↦ rw (valid, itself)
        | inr absent ↦ rw (valid, absent, sharded, there)
      ]

  module _ (content : S → Bytes → Option Bytes) (L : IsLawful f content) where
    write_blob_ok :
        outcome (write_blob f b (blob_path b prefix t name) body) s ≡ ok tt
        → content
            (final (write_blob f b (blob_path b prefix t name) body) s)
            (blob_path b prefix t name)
          ≡ some body.content
    write_blob_ok saved =
        let p = blob_path b prefix t name in
        let (_, _, written, end) =
          >>=-eq-ok (call (f.mkdir_all (dir_of p))) (λ _. atomic_write f p body) s tt saved in
        rw end (atomic_write_ok f content L p body (f.mkdir_all (dir_of p) s).1 written)

    -- The content of a new blob after a save without error.
    pub content-save_blob :
        IsNew
        → outcome (save_blob f b prefix t name body) s ≡ ok tt
        → content (final (save_blob f b prefix t name body) s) (blob_path b prefix t name)
          ≡ some body.content
    content-save_blob new saved =
        let same = save_blob-new new (save_blob-valid saved) in
        subst (λ run. run.1 ≡ ok tt → content run.2 (blob_path b prefix t name) ≡ some body.content)
          (sym same) write_blob_ok saved

    -- A save without error of a blob that is new is read back whole, where the path of the blob is
    -- still within the base directory.
    pub read_saved :
        IsNew
        → outcome (save_blob f b prefix t name body) s ≡ ok tt
        → validate_path f b (blob_path b prefix t name) (final (save_blob f b prefix t name body) s)
          ≡ none
        → get_blob f b prefix t name 0 0 (final (save_blob f b prefix t name body) s)
          ≡ ok body.content
    unfolding get_blob lt64
    read_saved new saved valid =
        let s' = final (save_blob f b prefix t name body) s in
        rw (
          valid,
          L.read_finds s' (blob_path b prefix t name) body.content (content-save_blob new saved),
        )
