-- ===== src/Files/Laws.antt =====
-- What the backends rely on of an operating system: the documented effect of each call on the contents
-- of the regular files. Nothing is said of which calls fail, but that a file that is there can be
-- read.
use ts_restic_server.Common.{
  ◌≡◌, ◌≢◌, Bool, true, false, ◌||◌, Option, none, some, ◌++◌, if◌then◌else◌,
}
use ts_restic_server.Common.Text.{Bytes, codes, eqs, has_prefix, ends_with}
use ts_restic_server.Common.Paths.{separator}
use ts_restic_server.Storage.{Reader}
use ts_restic_server.Files.{Files, done, failed, CallError}

-- The path lies under the directory, or is it.
abbrev pub is_under : Bytes → Bytes → Bool
is_under dir p =
    eqs p dir || has_prefix p (if ends_with separator dir then dir else dir ++ codes "/")

-- `content s p` is what the regular file at p holds.
pub record IsLawful {S : Type 0} (f : Files S) (content : S → Bytes → Option Bytes) : Type 0 where
  pub read_finds : (s : S) (p c : Bytes) → content s p ≡ some c → f.read p s ≡ done c
  pub content-mkdir_all : (s : S) (p q : Bytes) → content (f.mkdir_all p s).1 q ≡ content s q
  -- The name of a temporary file is that of no other file.
  pub create_temp_fresh :
      (s : S) (dir t : Bytes) → (f.create_temp dir s).0 ≡ done t → content s t ≡ none
  pub content-create_temp :
      (s : S) (dir q : Bytes) → content s q ≢ none → content (f.create_temp dir s).1 q ≡ content s q
  pub content-write :
      (s : S) (t q : Bytes) (body : Reader) → q ≢ t → content (f.write t body s).1 q ≡ content s q
  -- io.Copy ends without an error only at the end of the reader.
  pub write_done :
      (s : S) (t : Bytes) (body : Reader)
      → (f.write t body s).0 ≡ done tt
      → (body.fails ≡ false) × (content (f.write t body s).1 t ≡ some body.content)
  pub content-sync : (s : S) (t q : Bytes) → content (f.sync t s).1 q ≡ content s q
  pub content-close : (s : S) (t q : Bytes) → content (f.close t s).1 q ≡ content s q
  pub content-rename :
      (s : S) (old new q : Bytes)
      → q ≢ old
      → q ≢ new
      → content (f.rename old new s).1 q ≡ content s q
  pub rename_done :
      (s : S) (old new : Bytes)
      → (f.rename old new s).0 ≡ done tt
      → content (f.rename old new s).1 new ≡ content s old
  pub rename_failed :
      (s : S) (old new q : Bytes) (e : CallError)
      → (f.rename old new s).0 ≡ failed e
      → content (f.rename old new s).1 q ≡ content s q
  pub content-remove : (s : S) (p q : Bytes) → q ≢ p → content (f.remove p s).1 q ≡ content s q
  pub remove_all_done :
      (s : S) (dir p : Bytes)
      → (f.remove_all dir s).0 ≡ done tt
      → is_under dir p ≡ true
      → content (f.remove_all dir s).1 p ≡ none

-- What the backends on a share rely on: the same of the calls that they make.
pub record IsLawfulShare {S : Type 0} (f : Files S) (content : S → Bytes → Option Bytes)
    : Type 0 where
  pub content-mkdir : (s : S) (p q : Bytes) → content (f.mkdir p s).1 q ≡ content s q
  pub content-mkdir_all : (s : S) (p q : Bytes) → content (f.mkdir_all p s).1 q ≡ content s q
  pub content-create : (s : S) (t q : Bytes) → q ≢ t → content (f.create t s).1 q ≡ content s q
  pub content-open_file : (s : S) (t q : Bytes) → content (f.open_file t s).1 q ≡ content s q
  pub content-write :
      (s : S) (t q : Bytes) (body : Reader) → q ≢ t → content (f.write t body s).1 q ≡ content s q
  pub content-close : (s : S) (t q : Bytes) → content (f.close t s).1 q ≡ content s q
  pub content-rename :
      (s : S) (old new q : Bytes)
      → q ≢ old
      → q ≢ new
      → content (f.rename old new s).1 q ≡ content s q
  pub content-remove : (s : S) (p q : Bytes) → q ≢ p → content (f.remove p s).1 q ≡ content s q
