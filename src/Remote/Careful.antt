-- ===== src/Remote/Careful.antt =====
-- The SMB and the NFS backend are careful with the files on their share: their atomicWrite and
-- mkdirAll, call by call.
use ts_restic_server.Common.{
  ℕ, zero, suc, ◌≡◌, ◌≢◌, inl, inr, Bool, ◌&&◌, not, Option, some, length, Bool-cases, ◌∙◌,
}
use ts_restic_server.Common.Text.{Bytes, codes, eqs}
use ts_restic_server.Common.Paths.{dir_of}
use ts_restic_server.Storage.{ok, Reader}
use ts_restic_server.Files.{Files, Answer, done, failed, Info}
use ts_restic_server.Files.Program.{
  Program, return, attempt, call, ◌>>◌, or_clean, Keeps, Keeps-bind, Keeps-or_clean, Keeps-attempt,
  Keeps-call, Keeps-return,
}
use ts_restic_server.Files.Laws.{IsLawfulShare}
use ts_restic_server.Remote.{Client, temp_path, blob_path, save_blob}
use ts_restic_server.Remote.Smb
use ts_restic_server.Remote.Smb.{whole, discard, close_and_discard, smb_client}
use ts_restic_server.Remote.Nfs
use ts_restic_server.Remote.Nfs.{
  is_top, is_directory, made, make_one, unless_exists, mkdir_all_within, nfs_client,
}
use ts_restic_server.Remote.Kept.{IsOther, IsCareful, IsUntouched, share_file_kept}

module _ {S : Type 0} (f : Files S) (content : S → Bytes → Option Bytes)
    (L : IsLawfulShare f content) (q c : Bytes) where
  abbrev P : S → Type 0
  P s = content s q ≡ some c

  discard-Keeps : (t : Bytes) → q ≢ t → Keeps P (discard f t)
  discard-Keeps t n =
      Keeps-bind P (attempt (f.remove t)) (λ _. return tt)
        (Keeps-attempt P (f.remove t) (λ s h. L.content-remove s t q n ∙ h))
        (λ _. Keeps-return {A = Unit {0}} P (ok tt))

  close_and_discard-Keeps : (t : Bytes) → q ≢ t → Keeps P (close_and_discard f t)
  close_and_discard-Keeps t n =
      Keeps-bind P (attempt (f.close t)) (λ _. discard f t)
        (Keeps-attempt P (f.close t) (λ s h. L.content-close s t q ∙ h)) (λ _. discard-Keeps t n)

  -- A call on the temporary file or the path, and what cleans up after its error.
  cleaned-Keeps :
      (g : S → Answer (Unit {0}) × S) (clean : Program S (Unit {0}))
      → ((s : S) → P s → P (g s).1)
      → Keeps P clean
      → Keeps P (or_clean (call g) clean)
  cleaned-Keeps g clean h hc = Keeps-or_clean P (call g) clean (Keeps-call P g h) hc

  -- The end of both versions of atomicWrite.
  abbrev finish : Bytes → Bytes → Bytes → Program S (Unit {0})
  finish path body t =
      or_clean (call (f.write t (whole body))) (close_and_discard f t)
      >> (or_clean (call (f.close t)) (discard f t)
          >> or_clean (call (f.rename t path)) (discard f t))

  finish-Keeps : (path body t : Bytes) → q ≢ path → q ≢ t → Keeps P (finish path body t)
  finish-Keeps path body t m n =
      Keeps-bind P (or_clean (call (f.write t (whole body))) (close_and_discard f t))
        (λ _.
          or_clean (call (f.close t)) (discard f t)
          >> or_clean (call (f.rename t path)) (discard f t))
        (cleaned-Keeps (f.write t (whole body)) (close_and_discard f t)
          (λ s h. L.content-write s t q (whole body) n ∙ h) (close_and_discard-Keeps t n))
        (λ _.
          Keeps-bind P (or_clean (call (f.close t)) (discard f t))
            (λ _. or_clean (call (f.rename t path)) (discard f t))
            (cleaned-Keeps (f.close t) (discard f t) (λ s h. L.content-close s t q ∙ h)
              (discard-Keeps t n))
            (λ _.
              cleaned-Keeps (f.rename t path) (discard f t)
                (λ s h. L.content-rename s t path q n m ∙ h) (discard-Keeps t n)))

  create-Keeps : (t : Bytes) → q ≢ t → Keeps P (call (f.create t))
  create-Keeps t n = Keeps-call P (f.create t) (λ s h. L.content-create s t q n ∙ h)

  smb_write-Keeps : (path body : Bytes) → IsOther path q → Keeps P (Smb.atomic_write f path body)
  unfolding Smb.atomic_write
  smb_write-Keeps path body n =
      Keeps-bind P (call (f.create (temp_path path))) (λ _. finish path body (temp_path path))
        (create-Keeps (temp_path path) n.not_temp)
        (λ _. finish-Keeps path body (temp_path path) n.not_it n.not_temp)

  nfs_write-Keeps : (path body : Bytes) → IsOther path q → Keeps P (Nfs.atomic_write f path body)
  unfolding Nfs.atomic_write
  nfs_write-Keeps path body n =
      let t = temp_path path in
      Keeps-bind P (call (f.create t))
        (λ _. or_clean (call (f.open_file t)) (discard f t) >> finish path body t)
        (create-Keeps t n.not_temp)
        (λ _.
          Keeps-bind P (or_clean (call (f.open_file t)) (discard f t)) (λ _. finish path body t)
            (cleaned-Keeps (f.open_file t) (discard f t) (λ s h. L.content-open_file s t q ∙ h)
              (discard-Keeps t n.not_temp))
            (λ _. finish-Keeps path body t n.not_it n.not_temp))

  made-Keeps : (dir : Bytes) (a : Answer (Unit {0})) → Keeps P (made f dir a)
  made-Keeps dir (done u) s held = (tt, held)
  made-Keeps dir (failed e) s held = elim (Bool-cases (is_directory f (f.stat dir s))) [
    | inl there ↦ rw there (tt, held)
    | inr absent ↦ rw absent (tt, held)
  ]

  make_one-Keeps : (dir : Bytes) → Keeps P (make_one f dir)
  make_one-Keeps dir =
      Keeps-bind P (attempt (f.mkdir dir)) (made f dir)
        (Keeps-attempt P (f.mkdir dir) (λ s h. L.content-mkdir s dir q ∙ h)) (made-Keeps dir)

  unless_exists-Keeps :
      (dir : Bytes) (parents : Program S (Unit {0})) (a : Answer Info)
      → Keeps P parents
      → Keeps P (unless_exists f dir parents a)
  unless_exists-Keeps dir parents (done info) h s held = elim (Bool-cases info.is_dir) [
    | inl there ↦ rw there (tt, held)
    | inr file ↦ rw file (tt, held)
  ]
  unless_exists-Keeps dir parents (failed e) h s held =
      elim (Bool-cases (
        not (eqs (dir_of dir) dir)
        && not (eqs (dir_of dir) (codes "."))
        && not (eqs (dir_of dir) (codes "/")))) [
          | inl above ↦
              rw above
                (Keeps-bind P parents (λ _. make_one f dir) h (λ _. make_one-Keeps dir) s held)
          | inr at_top ↦ rw at_top (make_one-Keeps dir s held)
        ]

  mkdir_all-Keeps : (n : ℕ) (dir : Bytes) → Keeps P (mkdir_all_within f n dir)
  unfolding mkdir_all_within
  mkdir_all-Keeps zero dir s held = elim (Bool-cases (is_top dir)) [
    | inl top ↦ rw top (tt, held)
    | inr below ↦ rw below (tt, held)
  ]
  mkdir_all-Keeps (suc n) dir s held = elim (Bool-cases (is_top dir)) [
    | inl top ↦ rw top (tt, held)
    | inr below ↦ rw below (
        unless_exists-Keeps dir (mkdir_all_within f n (dir_of dir)) (f.stat dir s)
          (mkdir_all-Keeps n (dir_of dir)) s held)
  ]

module _ {S : Type 0} (f : Files S) (content : S → Bytes → Option Bytes)
    (L : IsLawfulShare f content) (base : Bytes) (is_connected : S → Bool)
    (connect disconnect : S → Answer (Unit {0}) × S)
    (connect_keeps : (s : S) (q : Bytes) → content (connect s).1 q ≡ content s q)
    (disconnect_keeps : (s : S) (q : Bytes) → content (disconnect s).1 q ≡ content s q) where
  pub smb-IsCareful : IsCareful (smb_client f base is_connected connect disconnect) content
  smb-IsCareful = record {
    connect_keeps = λ q c s h. connect_keeps s q ∙ h;
    disconnect_keeps = λ q c s h. disconnect_keeps s q ∙ h;
    make_dir_keeps = λ dir q c.
        Keeps-call (λ s. content s q ≡ some c) (f.mkdir_all dir)
          (λ s h. L.content-mkdir_all s dir q ∙ h);
    write_file_keeps = λ path body q c. smb_write-Keeps f content L q c path body;
  }

  pub nfs-IsCareful : IsCareful (nfs_client f base is_connected connect disconnect) content
  nfs-IsCareful = record {
    connect_keeps = λ q c s h. connect_keeps s q ∙ h;
    disconnect_keeps = λ q c s h. disconnect_keeps s q ∙ h;
    make_dir_keeps = λ dir q c. mkdir_all-Keeps f content L q c (length dir) dir;
    write_file_keeps = λ path body q c. nfs_write-Keeps f content L q c path body;
  }

  abbrev pub smb : Client S
  smb = smb_client f base is_connected connect disconnect

  abbrev pub nfs : Client S
  nfs = nfs_client f base is_connected connect disconnect

  -- SaveBlob of the SMB and of the NFS backend, whatever fails in it and at every moment between its
  -- calls, leaves every file that stood on the share before as it was, but for the temporary file of
  -- the blob and, where Stat fails on it once the backend is connected, the file at the blob's own
  -- path; connecting and disconnecting leave the files alone.
  pub share_keeps_files :
      (prefix t name : Bytes) (body : Reader) (q c : Bytes) (s : S)
      → q ≢ temp_path (blob_path base prefix t name)
      → content s q ≡ some c
      → IsUntouched smb content smb-IsCareful q c
          (blob_path base prefix t name)
          s
          (save_blob smb prefix t name body s)
        × IsUntouched nfs content nfs-IsCareful q c
            (blob_path base prefix t name)
            s
            (save_blob nfs prefix t name body s)
  share_keeps_files prefix t name body q c s n held = (
    share_file_kept smb content smb-IsCareful q c prefix t name body s n held,
    share_file_kept nfs content nfs-IsCareful q c prefix t name body s n held,
  )
