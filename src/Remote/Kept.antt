-- ===== src/Remote/Kept.antt =====
-- SaveBlob of internal/storage/smb/smb.go and internal/storage/nfs/nfs.go: what it leaves of the files
-- on the share.
use ts_restic_server.Common.{
  ◌≡◌, refl, ◌≢◌, ◌⊎◌, List, All-append, inl, inr, false, Option, some, All, Bool-cases,
  if◌then◌else◌,
}
use ts_restic_server.Common.Text.{Bytes, eqs, eqs_iff}
use ts_restic_server.Common.Paths.{dir_of}
use ts_restic_server.Storage.{Result, ok, err, panic, Reader}
use ts_restic_server.Files.{Answer, done, failed, Info}
use ts_restic_server.Files.Program.{
  Program, return, attempt, call, continue, look, ◌>>=◌, final, Keeps, Keeps-bind, Keeps-attempt,
  Keeps-call, Keeps-return,
}
use ts_restic_server.Filesystem.{is_sharded}
use ts_restic_server.Remote.{
  Client, blob_path, unsharded_path, temp_path, check_path, reconnect, unless_alive,
  ensure_connected, make_and_write, is_there, unless_unsharded, save_blob,
}

-- `q` is neither the file that is written nor its temporary file.
pub record IsOther (path q : Bytes) : Type 0 where
  pub not_it : q ≢ path
  pub not_temp : q ≢ temp_path path

module _ {S : Type 0} (b : Client S) (content : S → Bytes → Option Bytes) where
  abbrev pub Holds : Bytes → Bytes → S → Type 0
  Holds q c s = content s q ≡ some c

  -- What a backend on a share says of its files: connecting leaves them alone, as making a directory
  -- does, and a write to a path leaves the files that are not at it or at its temporary path.
  pub record IsCareful : Type 0 where
    pub connect_keeps : (q c : Bytes) (s : S) → Holds q c s → Holds q c (b.connect s).1
    pub disconnect_keeps : (q c : Bytes) (s : S) → Holds q c s → Holds q c (b.disconnect s).1
    pub make_dir_keeps : (dir q c : Bytes) → Keeps (Holds q c) (b.make_dir dir)
    pub write_file_keeps :
        (path body q c : Bytes) → IsOther path q → Keeps (Holds q c) (b.write_file path body)

  module _ (C : IsCareful) (q c : Bytes) where
    abbrev P : S → Type 0
    P = Holds q c

    reconnect-Keeps : Keeps P (reconnect b)
    reconnect-Keeps =
        Keeps-bind P (attempt b.disconnect) (λ _. call b.connect)
          (Keeps-attempt P b.disconnect (C.disconnect_keeps q c))
          (λ _. Keeps-call P b.connect (C.connect_keeps q c))

    unless_alive-Keeps : (a : Answer Info) → Keeps P (unless_alive b a)
    unless_alive-Keeps (done info) = Keeps-return {A = Unit {0}} P (ok tt)
    unless_alive-Keeps (failed e) = reconnect-Keeps

    ensure_connected-Keeps : Keeps P (ensure_connected b)
    unfolding ensure_connected
    ensure_connected-Keeps s held = elim (Bool-cases (b.is_connected s)) [
      | inl connected ↦ rw connected (
          Keeps-bind P (look (b.files.stat (check_path b))) (unless_alive b) (λ s p. (tt, p))
            unless_alive-Keeps s held)
      | inr apart ↦ rw apart (reconnect-Keeps s held)
    ]

    make_and_write-Keeps :
        (path body : Bytes) → IsOther path q → Keeps P (make_and_write b path body)
    make_and_write-Keeps path body n =
        Keeps-bind P (b.make_dir (dir_of path)) (λ _. b.write_file path body)
          (C.make_dir_keeps (dir_of path) q c) (λ _. C.write_file_keeps path body q c n)

    unless_unsharded-Keeps :
        (prefix t name body : Bytes)
        → IsOther (blob_path b.base_path prefix t name) q
        → Keeps P (unless_unsharded b prefix t name body)
    unless_unsharded-Keeps prefix t name body n s held =
        let write = make_and_write-Keeps (blob_path b.base_path prefix t name) body n s held in
        elim (Bool-cases (is_sharded t name)) [
          | inl sharded ↦
              rw sharded
                (elim (Bool-cases
                  (is_there b (b.files.stat (unsharded_path b.base_path prefix name) s))) [
                    | inl there ↦ rw there (tt, held)
                    | inr absent ↦ rw absent write
                  ])
          | inr flat ↦ rw flat write
        ]

    -- The part of SaveBlob behind the connection.
    abbrev store : Bytes → Bytes → Bytes → Bytes → Program S (Unit {0})
    store prefix t name body = do
      found ← look (b.files.stat (blob_path b.base_path prefix t name))
      if is_there b found then return tt else unless_unsharded b prefix t name body

    -- Behind the connection a file that held `c` is touched only where it is the one at the path of
    -- the blob and Stat fails on it.
    store-Keeps :
        (prefix t name body : Bytes) (s : S)
        → q ≢ temp_path (blob_path b.base_path prefix t name)
        → P s
        → (All P (store prefix t name body s).0 × P (store prefix t name body s).2)
          ⊎ ((q ≡ blob_path b.base_path prefix t name)
              × (is_there b (b.files.stat (blob_path b.base_path prefix t name) s) ≡ false))
    store-Keeps prefix t name body s n held =
        let p = blob_path b.base_path prefix t name in
        elim (Bool-cases (is_there b (b.files.stat p s))) [
          | inl there ↦ rw there (inl (tt, held))
          | inr absent ↦ rw absent (elim (Bool-cases (eqs q p)) [
            | inl same ↦ inr ((eqs_iff q p).0 same, refl)
            | inr differs ↦ inl (
                unless_unsharded-Keeps prefix t name body
                  (record { not_it = λ same. cc (differs, (eqs_iff q p).1 same); not_temp = n }) s
                  held)
          ])
        ]

    -- What SaveBlob leaves of a file that held `c`: the file as it was at every moment, unless it is
    -- the one at the path of the blob and Stat fails on it once the backend is connected.
    abbrev pub IsUntouched : Bytes → S → List S × Result (Unit {0}) × S → Type 0
    IsUntouched path s run =
        (All P run.0 × P run.2)
        ⊎ ((q ≡ path) × (is_there b (b.files.stat path (final (ensure_connected b) s)) ≡ false))

    connected-IsUntouched :
        (prefix t name body : Bytes) (s : S)
        → q ≢ temp_path (blob_path b.base_path prefix t name)
        → P s
        → IsUntouched
            (blob_path b.base_path prefix t name)
            s
            ((ensure_connected b >>= (λ _. store prefix t name body)) s)
    connected-IsUntouched prefix t name body s n held =
        let kept = ensure_connected-Keeps s held in
        go (ensure_connected b s).0 (ensure_connected b s).1 (ensure_connected b s).2 kept.0 kept.1
      where
        go :
            (trace : List S) (r : Result (Unit {0})) (s' : S)
            → All P trace
            → P s'
            → (All P (continue (λ _. store prefix t name body) trace r s').0
                × P (continue (λ _. store prefix t name body) trace r s').2)
              ⊎ ((q ≡ blob_path b.base_path prefix t name)
                  × (is_there b (b.files.stat (blob_path b.base_path prefix t name) s') ≡ false))
        go trace (ok u) s' past now = elim (store-Keeps prefix t name body s' n now) [
          | inl (later, last) ↦
              inl (All-append P trace (store prefix t name body s').0 past later, last)
          | inr failing ↦ inr failing
        ]
        go trace (err e) s' past now = inl (past, now)
        go trace panic s' past now = inl (past, now)

    pub share_file_kept :
        (prefix t name : Bytes) (body : Reader) (s : S)
        → q ≢ temp_path (blob_path b.base_path prefix t name)
        → content s q ≡ some c
        → IsUntouched (blob_path b.base_path prefix t name) s (save_blob b prefix t name body s)
    unfolding save_blob
    share_file_kept prefix t name body s n held = elim (Bool-cases body.fails) [
      | inl failing ↦ rw failing (inl (tt, held))
      | inr complete ↦ rw complete (connected-IsUntouched prefix t name body.content s n held)
    ]
