-- ===== src/Remote/Nfs.antt =====
-- What internal/storage/nfs/nfs.go has of its own: its atomicWrite and mkdirAll, its errors and its
-- client.
use ts_restic_server.Common.{
  ℕ, zero, suc, Bool, false, ◌||◌, ◌&&◌, not, Option, none, some, [], length, if◌then◌else◌,
}
use ts_restic_server.Common.Text.{Bytes, codes, eqs, contains}
use ts_restic_server.Common.Paths.{dir_of}
use ts_restic_server.Storage.{other}
use ts_restic_server.Files.{Files, Answer, done, failed, CallError, Info}
use ts_restic_server.Files.Program.{
  Program, return, fail, attempt, call, look, ◌>>=◌, ◌>>◌, or_clean,
}
use ts_restic_server.Remote.{Client, temp_path}
use ts_restic_server.Remote.Smb.{whole, discard, close_and_discard}

abbrev pub entry_or_text : Option Bool → Bytes → Bool
entry_or_text (some no_entry) message = no_entry
entry_or_text none message =
    contains message (codes "NFS3ERR_NOENT") || contains message (codes "NFS3ERR_STALE")

-- isNotFound
unfoldable pub is_not_found : CallError → Bool
is_not_found e = e.not_exist || entry_or_text e.no_entry e.message

-- the paths that mkdirAll takes to be there
abbrev pub is_top : Bytes → Bool
is_top dir = eqs dir (codes ".") || eqs dir (codes "/") || eqs dir []

module _ {S : Type 0} (f : Files S) where
  -- atomicWrite
  unfoldable pub atomic_write : Bytes → Bytes → Program S (Unit {0})
  atomic_write path content =
      let tmp = temp_path path in
      do
        call (f.create tmp)
        or_clean (call (f.open_file tmp)) (discard f tmp)
        or_clean (call (f.write tmp (whole content))) (close_and_discard f tmp)
        or_clean (call (f.close tmp)) (discard f tmp)
        or_clean (call (f.rename tmp path)) (discard f tmp)

  abbrev pub is_directory : Answer Info → Bool
  is_directory (done info) = info.is_dir
  is_directory (failed e) = false

  abbrev pub made : Bytes → Answer (Unit {0}) → Program S (Unit {0})
  made dir (done u) = return tt
  made dir (failed e) = do
    again ← look (f.stat dir)
    if is_directory again then return tt else fail other

  abbrev pub make_one : Bytes → Program S (Unit {0})
  make_one dir = attempt (f.mkdir dir) >>= made dir

  -- mkdirAll for a path that is not there; `parents` makes the directory above it
  abbrev pub unless_exists : Bytes → Program S (Unit {0}) → Answer Info → Program S (Unit {0})
  unless_exists dir parents (done info) = if info.is_dir then return tt else fail other
  unless_exists dir parents (failed e) =
      let parent = dir_of dir in
      if not (eqs parent dir) && not (eqs parent (codes ".")) && not (eqs parent (codes "/"))
      then parents >> make_one dir
      else make_one dir

  -- mkdirAll, with a bound on the calls of itself
  unfoldable pub mkdir_all_within : ℕ → Bytes → Program S (Unit {0})
  mkdir_all_within zero dir = if is_top dir then return tt else fail other
  mkdir_all_within (suc n) dir =
      if is_top dir
      then return tt
      else look (f.stat dir) >>= unless_exists dir (mkdir_all_within n (dir_of dir))

  -- A parent is shorter, so that the length of the path is a bound.
  abbrev pub mkdir_all : Bytes → Program S (Unit {0})
  mkdir_all dir = mkdir_all_within (length dir) dir

  -- The backend on an export.
  abbrev pub nfs_client :
      Bytes → (S → Bool) → (S → Answer (Unit {0}) × S) → (S → Answer (Unit {0}) × S) → Client S
  nfs_client base is_connected connect disconnect = record {
    base_path = base;
    files = f;
    is_connected = is_connected;
    connect = connect;
    disconnect = disconnect;
    is_not_found = is_not_found;
    make_dir = mkdir_all;
    write_file = atomic_write;
    is_listed =
        λ info. not (eqs info.name (codes ".") || eqs info.name (codes "..")) && not info.is_dir;
  }
