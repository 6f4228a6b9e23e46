-- ===== src/Files.antt =====
-- What the backends on a file system or a share call of it: an operating system, an SMB or an NFS
-- client. Each call is a parameter; its state S is whatever the file system keeps. A call that only
-- reads leaves the state alone.
pub mod Program
pub mod Laws
pub mod Disk
use ts_restic_server.Common.{ℕ, Bool, List, Option}
use ts_restic_server.Common.Text.{Bytes}
use ts_restic_server.Storage.{Reader}

-- A Go error of a call: what os.IsNotExist says of it, its NFS error number NFS3ERR_NOENT, where it is
-- a *nfs.Error, and its text.
pub record CallError : Type 0 where
  pub not_exist : Bool
  pub no_entry : Option Bool
  pub message : Bytes

pub data Answer {ℓ} (A : Type ℓ) : Type ℓ where
  done : A → Answer A
  failed : CallError → Answer A

-- os.FileInfo, of an entry that Walk or ReadDir lists too
pub record Info : Type 0 where
  pub name : Bytes
  pub size : ℕ
  pub is_dir : Bool
  pub is_symlink : Bool

-- `open_read` says whether a file can be opened, and `read` is what it then delivers, or the error of
-- the two; `walk` is what filepath.Walk passes to its function, an entry or an error. `write` copies from a reader. A temporary file is known by its name, which
-- `create_temp` chooses.
pub record Files (S : Type 0) : Type 0 where
  pub eval_symlinks : Bytes → S → Answer Bytes
  pub stat : Bytes → S → Answer Info
  pub lstat : Bytes → S → Answer Info
  pub open_read : Bytes → S → Answer (Unit {0})
  pub read : Bytes → S → Answer Bytes
  pub read_dir : Bytes → S → Answer (List Info)
  pub walk : Bytes → S → List (Answer Info)
  pub mkdir : Bytes → S → Answer (Unit {0}) × S
  pub mkdir_all : Bytes → S → Answer (Unit {0}) × S
  pub create_temp : Bytes → S → Answer Bytes × S
  pub create : Bytes → S → Answer (Unit {0}) × S
  pub open_file : Bytes → S → Answer (Unit {0}) × S
  pub write : Bytes → Reader → S → Answer (Unit {0}) × S
  pub sync : Bytes → S → Answer (Unit {0}) × S
  pub close : Bytes → S → Answer (Unit {0}) × S
  pub rename : Bytes → Bytes → S → Answer (Unit {0}) × S
  pub remove : Bytes → S → Answer (Unit {0}) × S
  pub remove_all : Bytes → S → Answer (Unit {0}) × S
