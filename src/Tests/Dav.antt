-- ===== src/Tests/Dav.antt =====
-- Tests of internal/storage/webdav.
use ts_restic_server.Common.{
  ◌≡◌, take, drop, refl, Bool, true, false, Option, none, some, [], ◌∷◌, length,
}
use ts_restic_server.Common.Text.{Bytes, codes, eqs, has_prefix, contains, split, join}
use ts_restic_server.Common.Dict.{Dict, get, put, remove}
use ts_restic_server.Common.Paths.{join_path, clean, clean_elements}
use ts_restic_server.Storage.{Reader, err, not_found, other, blob_data}
use ts_restic_server.Files.{Answer, done, failed, CallError, Info}
use ts_restic_server.Files.Program.{outcome}
use ts_restic_server.Webdav.{
  DavClient, Webdav, is_not_found, path_join, repo_prefix, repo_dir, blob_path, unsharded_path,
  delete_blob, delete_repo,
}

-- A server that keeps the contents of its files, and makes no directories.
abbrev missing_file : CallError
missing_file = record { not_exist = false; no_entry = none; message = codes "GET: 404" }

abbrev to_answer : {A : Type 0} → (Bytes → A) → Option Bytes → Answer A
to_answer f none = failed missing_file
to_answer f (some c) = done (f c)

abbrev info_of : Bytes → Bytes → Info
info_of p c = record { name = p; size = length c; is_dir = false; is_symlink = false }

abbrev drop_file : Bytes → Dict Bytes → Answer Bytes → Answer (Unit {0}) × Dict Bytes
drop_file p s (done c) = (done tt, remove s p)
drop_file p s (failed e) = (failed e, s)

abbrev put_file : Bytes → Bytes → Dict Bytes → Bool → Answer (Unit {0}) × Dict Bytes
put_file p content s true = (failed missing_file, s)
put_file p content s false = (done tt, put s p content)

abbrev server : DavClient (Dict Bytes)
server = record {
  mkdir_all = λ p s. (done tt, s);
  remove_all = λ p s. (done tt, []);
  remove = λ p s. drop_file p s (to_answer (λ c. c) (get s p));
  stat = λ p s. to_answer (info_of p) (get s p);
  read_dir = λ p s. done [];
  read_stream = λ p s. to_answer (λ c. c) (get s p);
  read_stream_range = λ p offset count s. to_answer (λ c. take count (drop offset c)) (get s p);
  write_stream = λ p body s. put_file p body.content s body.fails;
}

abbrev dav : Webdav (Dict Bytes)
dav = record { client = server; prefix = codes "backups" }

abbrev hello : Reader
hello = record { content = codes "hello"; fails = false }

-- Another blob stands under the name.
abbrev before : Dict Bytes
before = (codes "/backups/r/data/ab/abcd", codes "old") ∷ []

gone : outcome (delete_blob dav (codes "r") blob_data (codes "abce")) before ≡ err not_found
unfolding delete_blob is_not_found blob_path unsharded_path path_join repo_prefix join_path clean
    clean_elements split join eqs has_prefix get contains
gone = refl

root_stays : outcome (delete_repo (record { client = server; prefix = [] }) []) before ≡ err other
unfolding delete_repo repo_dir repo_prefix join eqs
root_stays = refl
