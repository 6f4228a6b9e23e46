-- ===== src/Remote/Smb.antt =====
-- What internal/storage/smb/smb.go has of its own: its atomicWrite, its errors and its client.
use ts_restic_server.Common.{Bool, false, ◌||◌, not}
use ts_restic_server.Common.Text.{Bytes, codes, contains}
use ts_restic_server.Storage.{Reader}
use ts_restic_server.Files.{Files, Answer, CallError}
use ts_restic_server.Files.Program.{Program, return, attempt, call, ◌>>◌, or_clean}
use ts_restic_server.Remote.{Client, temp_path}

-- isNotFound
unfoldable pub is_not_found : CallError → Bool
is_not_found e =
    e.not_exist
    || contains e.message (codes "not found")
    || contains e.message (codes "does not exist")
    || contains e.message (codes "STATUS_OBJECT_NAME_NOT_FOUND")
    || contains e.message (codes "STATUS_OBJECT_PATH_NOT_FOUND")

abbrev pub whole : Bytes → Reader
whole content = record { content = content; fails = false }

module _ {S : Type 0} (f : Files S) where
  abbrev pub discard : Bytes → Program S (Unit {0})
  discard tmp = do attempt (f.remove tmp); return tt

  abbrev pub close_and_discard : Bytes → Program S (Unit {0})
  close_and_discard tmp = do attempt (f.close tmp); discard tmp

  -- atomicWrite
  unfoldable pub atomic_write : Bytes → Bytes → Program S (Unit {0})
  atomic_write path content =
      let tmp = temp_path path in
      do
        call (f.create tmp)
        or_clean (call (f.write tmp (whole content))) (close_and_discard tmp)
        or_clean (call (f.close tmp)) (discard tmp)
        or_clean (call (f.rename tmp path)) (discard tmp)

  -- The backend on a share; MkdirAll is the client's.
  abbrev pub smb_client :
      Bytes → (S → Bool) → (S → Answer (Unit {0}) × S) → (S → Answer (Unit {0}) × S) → Client S
  smb_client base is_connected connect disconnect = record {
    base_path = base;
    files = f;
    is_connected = is_connected;
    connect = connect;
    disconnect = disconnect;
    is_not_found = is_not_found;
    make_dir = λ dir. call (f.mkdir_all dir);
    write_file = atomic_write;
    is_listed = λ info. not info.is_dir;
  }
