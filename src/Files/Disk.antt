-- ===== src/Files/Disk.antt =====
-- A small file system without links: files and directories by their paths. It meets the laws, so that
-- what rests on them is about something.
use ts_restic_server.Common.{
  ◌≡◌, refl, ◌≢◌, inl, inr, true, false, Option, none, some, List, [], ◌∷◌, arith, any, length,
  if◌then◌else◌, Bool-cases, Option-cases, ◌∙◌,
}
use ts_restic_server.Common.Text.{Bytes, codes, eqs, eqs_iff}
use ts_restic_server.Common.Paths.{join_path, base_of}
use ts_restic_server.Common.Dict.{Dict, get, put, remove, get-put, get-remove}
use ts_restic_server.Storage.{Reader}
use ts_restic_server.Files.{Files, Answer, done, failed, CallError, Info}
use ts_restic_server.Files.Laws.{is_under, IsLawful, IsLawfulShare}

pub record Disk : Type 0 where
  pub files : Dict Bytes
  pub dirs : List Bytes

abbrev pub missing : CallError
missing = record { not_exist = true; no_entry = none; message = codes "no such file or directory" }

abbrev pub broken : CallError
broken = record { not_exist = false; no_entry = none; message = codes "input/output error" }

abbrev file_info : Bytes → Bytes → Info
file_info p content = record {
  name = base_of p;
  size = length content;
  is_dir = false;
  is_symlink = false;
}

abbrev dir_info : Bytes → Info
dir_info p = record { name = base_of p; size = 0; is_dir = true; is_symlink = false }

abbrev pub disk_stat : Bytes → Disk → Answer Info
disk_stat p d = elim (get d.files p) [
  | some content ↦ done (file_info p content)
  | none ↦ if any (eqs p) d.dirs then done (dir_info p) else failed missing
]

abbrev pub disk_read : Bytes → Disk → Answer Bytes
disk_read p d = elim (get d.files p) [ some content ↦ done content | none ↦ failed missing ]

abbrev disk_open : Bytes → Disk → Answer (Unit {0})
disk_open p d = elim (get d.files p) [ some content ↦ done tt | none ↦ failed missing ]

abbrev walk_files : Bytes → Dict Bytes → List (Answer Info)
walk_files dir [] = []
walk_files dir ((p, content) ∷ files) =
    let rest = walk_files dir files in
    if is_under dir p then done (file_info p content) ∷ rest else rest

abbrev drop_files : Bytes → Dict Bytes → Dict Bytes
drop_files dir [] = []
drop_files dir ((p, content) ∷ files) =
    let rest = drop_files dir files in if is_under dir p then rest else (p, content) ∷ rest

abbrev drop_dirs : Bytes → List Bytes → List Bytes
drop_dirs dir [] = []
drop_dirs dir (p ∷ dirs) =
    let rest = drop_dirs dir dirs in if is_under dir p then rest else p ∷ rest

abbrev temp_name : Bytes → Bytes
temp_name dir = join_path (dir ∷ codes ".tmp-0" ∷ [])

abbrev put_file : Bytes → Bytes → Disk → Disk
put_file p content d = record d { files = put d.files p content }

abbrev drop_file : Bytes → Disk → Disk
drop_file p d = record d { files = remove d.files p }

abbrev disk_create_temp : Bytes → Disk → Answer Bytes × Disk
disk_create_temp dir d = elim (get d.files (temp_name dir)) [
  | none ↦ (done (temp_name dir), put_file (temp_name dir) [] d)
  | some content ↦ (failed broken, d)
]

abbrev disk_write : Bytes → Reader → Disk → Answer (Unit {0}) × Disk
disk_write p body d = (if body.fails then failed broken else done tt, put_file p body.content d)

abbrev moved : Bytes → Bytes → Disk → Option Bytes → Answer (Unit {0}) × Disk
moved old new d none = (failed missing, d)
moved old new d (some content) = (done tt, put_file new content (drop_file old d))

abbrev disk_rename : Bytes → Bytes → Disk → Answer (Unit {0}) × Disk
disk_rename old new d = moved old new d (get d.files old)

abbrev disk_remove : Bytes → Disk → Answer (Unit {0}) × Disk
disk_remove p d = elim (get d.files p) [
  | none ↦ (failed missing, d)
  | some content ↦ (done tt, drop_file p d)
]

abbrev pub disk : Files Disk
disk = record {
  eval_symlinks = λ p d. done p;
  stat = disk_stat;
  lstat = disk_stat;
  open_read = disk_open;
  read = disk_read;
  read_dir = λ p d. done [];
  walk = λ p d. walk_files p d.files;
  mkdir = λ p d. (done tt, record d { dirs = p ∷ d.dirs });
  mkdir_all = λ p d. (done tt, record d { dirs = p ∷ d.dirs });
  create_temp = disk_create_temp;
  create = λ p d. (done tt, put_file p [] d);
  open_file = λ p d. (done tt, d);
  write = disk_write;
  sync = λ p d. (done tt, d);
  close = λ p d. (done tt, d);
  rename = disk_rename;
  remove = disk_remove;
  remove_all = λ p d. (done tt, record { files = drop_files p d.files; dirs = drop_dirs p d.dirs });
}

abbrev pub file_at : Disk → Bytes → Option Bytes
file_at d p = get d.files p

put_other : (m : Dict Bytes) (p q c : Bytes) → q ≢ p → get (put m p c) q ≡ get m q
put_other m p q c n = ground (arith, get-put m p q c, eqs_iff p q)

put_same : (m : Dict Bytes) (p c : Bytes) → get (put m p c) p ≡ some c
put_same m p c = ground (arith, get-put m p p c, eqs_iff p p)

remove_other : (m : Dict Bytes) (p q : Bytes) → q ≢ p → get (remove m p) q ≡ get m q
remove_other m p q n = ground (arith, get-remove m p q, eqs_iff p q)

disk-create_temp :
    (d : Disk) (dir q : Bytes)
    → file_at d q ≢ none
    → file_at (disk_create_temp dir d).1 q ≡ file_at d q
disk-create_temp d dir q there = elim (Option-cases (get d.files (temp_name dir))) [
  | inl free ↦
      rw (free, disk_create_temp)
        (put_other d.files (temp_name dir) q [] (λ same. there (rw same free)))
  | inr (c, taken) ↦ rw (taken, disk_create_temp)
]

disk-create_temp_fresh :
    (d : Disk) (dir t : Bytes) → (disk_create_temp dir d).0 ≡ done t → file_at d t ≡ none
disk-create_temp_fresh d dir t e = elim (Option-cases (get d.files (temp_name dir))) [
  | inl free ↦
      let same : temp_name dir ≡ t = cc (rw (free, disk_create_temp) at e) in rw (← same) free
  | inr (c, taken) ↦ absurd (cc (rw (taken, disk_create_temp) at e))
]

disk-write_done :
    (d : Disk) (t : Bytes) (body : Reader)
    → (disk_write t body d).0 ≡ done tt
    → (body.fails ≡ false) × (file_at (disk_write t body d).1 t ≡ some body.content)
disk-write_done d t body e = (ground arith, put_same d.files t body.content)

module _ (d : Disk) (old new : Bytes) where
  disk-rename : (q : Bytes) → q ≢ old → q ≢ new → file_at (disk_rename old new d).1 q ≡ file_at d q
  disk-rename q n m = go (get d.files old)
    where
      go : (o : Option Bytes) → file_at (moved old new d o).1 q ≡ file_at d q
      go none = refl
      go (some c) = put_other (remove d.files old) new q c m ∙ remove_other d.files old q n

  disk-rename_done :
      (disk_rename old new d).0 ≡ done tt → file_at (disk_rename old new d).1 new ≡ file_at d old
  disk-rename_done e = go (get d.files old) e
    where
      go :
          (o : Option Bytes)
          → (moved old new d o).0 ≡ done tt
          → file_at (moved old new d o).1 new ≡ o
      go none e = cc
      go (some c) e = put_same (remove d.files old) new c

  disk-rename_failed :
      (q : Bytes) (x : CallError)
      → (disk_rename old new d).0 ≡ failed x
      → file_at (disk_rename old new d).1 q ≡ file_at d q
  disk-rename_failed q x e = go (get d.files old) e
    where
      go :
          (o : Option Bytes)
          → (moved old new d o).0 ≡ failed x
          → file_at (moved old new d o).1 q ≡ file_at d q
      go none e = refl
      go (some c) e = cc

disk-remove : (d : Disk) (p q : Bytes) → q ≢ p → file_at (disk_remove p d).1 q ≡ file_at d q
disk-remove d p q n = elim (Option-cases (get d.files p)) [
  | inl nothing ↦ rw (nothing, disk_remove)
  | inr (c, there) ↦ rw (there, disk_remove) (remove_other d.files p q n)
]

drop_files_under :
    (dir p : Bytes) (m : Dict Bytes) → is_under dir p ≡ true → get (drop_files dir m) p ≡ none
unfolding get
drop_files_under dir p [] h = refl
drop_files_under dir p ((q, c) ∷ m) h = elim (Bool-cases (is_under dir q)) [
  | inl gone ↦ rw gone (drop_files_under dir p m h)
  | inr kept ↦ rw kept (ground (arith, drop_files_under dir p m h, eqs_iff q p))
]

pub disk-IsLawful : IsLawful disk file_at
disk-IsLawful = record {
  read_finds = λ d p c held. rw (held, disk_read);
  content-mkdir_all = λ d p q. refl;
  create_temp_fresh = disk-create_temp_fresh;
  content-create_temp = disk-create_temp;
  content-write = λ d t q body n. put_other d.files t q body.content n;
  write_done = disk-write_done;
  content-sync = λ d t q. refl;
  content-close = λ d t q. refl;
  content-rename = disk-rename;
  rename_done = disk-rename_done;
  rename_failed = disk-rename_failed;
  content-remove = disk-remove;
  remove_all_done = λ d dir p e h. drop_files_under dir p d.files h;
}

pub disk-IsLawfulShare : IsLawfulShare disk file_at
disk-IsLawfulShare = record {
  content-mkdir = λ d p q. refl;
  content-mkdir_all = λ d p q. refl;
  content-create = λ d t q n. put_other d.files t q [] n;
  content-open_file = λ d t q. refl;
  content-write = λ d t q body n. put_other d.files t q body.content n;
  content-close = λ d t q. refl;
  content-rename = disk-rename;
  content-remove = disk-remove;
}
