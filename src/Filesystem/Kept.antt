-- ===== src/Filesystem/Kept.antt =====
-- SaveBlob and SaveConfig of internal/storage/filesystem/filesystem.go: what they leave of the files.
use ts_restic_server.Common.{
  ◌≡◌, refl, ◌≢◌, ◌⊎◌, inl, inr, false, Option, none, some, List, [], ◌∷◌, All, Bool-cases,
  Option-cases, ◌∙◌,
}
use ts_restic_server.Common.Text.{Bytes, eqs, eqs_iff}
use ts_restic_server.Common.Paths.{dir_of}
use ts_restic_server.Storage.{Error, Result, ok, err, Reader}
use ts_restic_server.Files.{Files}
use ts_restic_server.Files.Program.{call, look, Keeps, Keeps-bind, Keeps-call, Keeps-return}
use ts_restic_server.Files.Laws.{IsLawful}
use ts_restic_server.Filesystem.{Filesystem, blob_path, unsharded_path, is_sharded, validate_path}
use ts_restic_server.Filesystem.Writes.{nil_or_error, ensure_valid, atomic_write}
use ts_restic_server.Filesystem.Blobs.{is_there, write_blob, unless_unsharded, save_blob}
use ts_restic_server.Filesystem.Atomic.{Holds, OldOrNew, bind-IsAtomic, atomic_write-IsAtomic}

module _ {S : Type 0} (f : Files S) (content : S → Bytes → Option Bytes) (L : IsLawful f content)
    (b : Filesystem) where
  -- A check that only reads, and may return its error.
  nil_or_error-Keeps : (P : S → Type 0) (o : Option Error) → Keeps P (nil_or_error f b o)
  nil_or_error-Keeps P none = Keeps-return {A = Unit {0}} P (ok tt)
  nil_or_error-Keeps P (some e) = Keeps-return {A = Unit {0}} P (err e)

  ensure_valid-Keeps : (P : S → Type 0) (path : Bytes) → Keeps P (ensure_valid f b path)
  ensure_valid-Keeps P path =
      Keeps-bind P (look (validate_path f b path)) (nil_or_error f b) (λ s p. (tt, p))
        (nil_or_error-Keeps P)

  old-Holds :
      (path : Bytes) (body : Reader) (q c : Bytes) (u : S)
      → q ≢ path
      → OldOrNew f content L path body q c u
      → Holds f content L q c u
  old-Holds path body q c u n (inl h) = h
  old-Holds path body q c u n (inr (same, h)) = absurd (n same)

  past-Holds :
      (path : Bytes) (body : Reader) (q c : Bytes) (trace : List S)
      → q ≢ path
      → All (OldOrNew f content L path body q c) trace
      → All (Holds f content L q c) trace
  past-Holds path body q c [] n h = tt
  past-Holds path body q c (u ∷ trace) n (p, h) =
      (old-Holds path body q c u n p, past-Holds path body q c trace n h)

  -- A write to one path keeps every other file.
  write_blob-Keeps :
      (path : Bytes) (body : Reader) (q c : Bytes)
      → q ≢ path
      → Keeps (Holds f content L q c) (write_blob f b path body)
  write_blob-Keeps path body q c n =
      Keeps-bind (Holds f content L q c) (call (f.mkdir_all (dir_of path)))
        (λ _. atomic_write f path body)
        (Keeps-call (Holds f content L q c) (f.mkdir_all (dir_of path))
          (λ s h. L.content-mkdir_all s (dir_of path) q ∙ h))
        (λ _ s h.
          let (past, last, _, _, _) = atomic_write-IsAtomic f content L path body q c s h in
          (past-Holds path body q c _ n past, old-Holds path body q c _ n last))

  unless_unsharded-Keeps :
      (prefix t name : Bytes) (body : Reader) (q c : Bytes)
      → q ≢ blob_path b prefix t name
      → Keeps (Holds f content L q c) (unless_unsharded f b prefix t name body)
  unless_unsharded-Keeps prefix t name body q c n s held = elim (Bool-cases (is_sharded t name)) [
    | inl sharded ↦
        rw sharded (elim (Bool-cases (is_there f b (f.lstat (unsharded_path b prefix name) s))) [
          | inl there ↦ rw there (tt, held)
          | inr absent ↦ rw absent (write_blob-Keeps (blob_path b prefix t name) body q c n s held)
        ])
    | inr flat ↦ rw flat (write_blob-Keeps (blob_path b prefix t name) body q c n s held)
  ]

  -- What a write to the path leaves of a file that held `c`: all of it or, where it is the file at
  -- the path, the whole body.
  abbrev IsWhole : Bytes → Reader → Bytes → Bytes → List S × Result (Unit {0}) × S → Type 0
  IsWhole path body q c run =
      All (OldOrNew f content L path body q c) run.0 × OldOrNew f content L path body q c run.2

  write_blob-IsWhole :
      (path : Bytes) (body : Reader) (q c : Bytes) (s : S)
      → Holds f content L q c s
      → IsWhole path body q c (write_blob f b path body s)
  write_blob-IsWhole path body q c s held =
      let kept = L.content-mkdir_all s (dir_of path) q ∙ held in
      let (past, last, _, _, _) =
        bind-IsAtomic f content L path body q c (call (f.mkdir_all (dir_of path)))
          (λ _. atomic_write f path body) s ((kept, tt), kept)
          (λ _ _. atomic_write-IsAtomic f content L path body q c _ kept) in
      (past, last)

  unless_unsharded-IsWhole :
      (prefix t name : Bytes) (body : Reader) (q c : Bytes) (s : S)
      → Holds f content L q c s
      → IsWhole (blob_path b prefix t name) body q c (unless_unsharded f b prefix t name body s)
  unless_unsharded-IsWhole prefix t name body q c s held =
      let written = write_blob-IsWhole (blob_path b prefix t name) body q c s held in
      elim (Bool-cases (is_sharded t name)) [
        | inl sharded ↦
            rw sharded
              (elim (Bool-cases (is_there f b (f.lstat (unsharded_path b prefix name) s))) [
                | inl there ↦ rw there (tt, inl held)
                | inr absent ↦ rw absent written
              ])
        | inr flat ↦ rw flat written
      ]

  -- What SaveBlob leaves of a file that held `c`: the file as it was at every moment; but where Lstat
  -- fails on the path of the blob and the file is the one at that path, each moment finds all of it or
  -- the whole new body.
  abbrev pub IsUntouched :
      Bytes → Reader → Bytes → Bytes → S → List S × Result (Unit {0}) × S → Type 0
  IsUntouched path body q c s run =
      (All (Holds f content L q c) run.0 × Holds f content L q c run.2)
      ⊎ ((q ≡ path)
          × (is_there f b (f.lstat path s) ≡ false)
          × All (OldOrNew f content L path body q c) run.0
          × OldOrNew f content L path body q c run.2)

  -- SaveBlob, whatever fails in it, leaves every file that stood before as it was, at every moment
  -- between its calls and after them. The one exception is the file at the blob's own path where the
  -- Lstat of it fails: that file holds at every moment what it held, or the whole body.
  pub save_blob_keeps_files :
      (prefix t name : Bytes) (body : Reader) (q c : Bytes) (s : S)
      → content s q ≡ some c
      → IsUntouched (blob_path b prefix t name) body q c s (save_blob f b prefix t name body s)
  unfolding save_blob
  save_blob_keeps_files prefix t name body q c s held =
      let p = blob_path b prefix t name in
      elim (Option-cases (validate_path f b p s)) [
        | inr (e, invalid) ↦ rw invalid (inl (tt, held))
        | inl valid ↦ rw valid (elim (Bool-cases (is_there f b (f.lstat p s))) [
          | inl there ↦ rw there (inl (tt, held))
          | inr absent ↦ rw absent (elim (Bool-cases (eqs q p)) [
            | inl same ↦
                let whole = unless_unsharded-IsWhole prefix t name body q c s held in
                inr ((eqs_iff q p).0 same, refl, whole.0, whole.1)
            | inr differs ↦ inl (
                unless_unsharded-Keeps prefix t name body q c
                  (λ same. cc (differs, (eqs_iff q p).1 same)) s held)
          ])
        ])
      ]
