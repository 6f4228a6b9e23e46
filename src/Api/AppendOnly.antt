-- ===== src/Api/AppendOnly.antt =====
-- Append-only mode over the memory backend: what no sequence of requests can do.
use ts_restic_server.Common.{
  ◌≡◌, ◌≢◌, inl, inr, Bool, true, false, not, Option, none, some, List, [], ◌∷◌, arith,
  if◌then◌else◌, sym, ap, subst, Bool-cases, Option-cases,
}
use ts_restic_server.Common.Text.{Bytes, codes, eqs, eqs_iff}
use ts_restic_server.Storage.{Reader, blob_locks, valid_blob_type, valid_blob_name}
use ts_restic_server.Http.{Request, Reply, Handler}
use ts_restic_server.Memory
use ts_restic_server.Memory.{Memory}
use ts_restic_server.Memory.Blobs
use ts_restic_server.Memory.Blobs.{find_blob, backend}
use ts_restic_server.Memory.Lookup.{same_place, store_blob_lem, delete_blob_lem}
use ts_restic_server.Memory.Kept.{
  config_of, config_of-create_repo, find_blob-create_repo, find_blob-store_config,
  config_of-store_config, config_of-store_blob, config_of-delete_blob,
}
use ts_restic_server.Api.{
  ApiHandler, checked_blob, blob_type, blob_name, invalid_type, invalid_name,
}
use ts_restic_server.Api.Blob
use ts_restic_server.Api.Blob.{save_checked, delete_checked, get_checked, head_checked}
use ts_restic_server.Api.Repo.{create_refused, create_result}
use ts_restic_server.Api.Listing.{list_result}
use ts_restic_server.Api.Config
use ts_restic_server.Api.Config.{guard_config}
use ts_restic_server.Api.Repo
use ts_restic_server.Api.Listing
use ts_restic_server.Api.Server.{Endpoint, handle, serve_all}

-- No blob other than a lock is gone, and no config that was set has changed.
pub record Keeps (b b' : Memory) : Type 0 where
  pub blobs :
      (key t name : Bytes)
      → t ≢ blob_locks
      → find_blob key t name b ≢ none
      → find_blob key t name b' ≢ none
  pub configs :
      (key content : Bytes) → config_of key b ≡ some content → config_of key b' ≡ some content

pub Keeps-refl : (b : Memory) → Keeps b b
Keeps-refl b = record { blobs = λ key t name n h. h; configs = λ key content h. h }

pub Keeps-trans : {a b c : Memory} → Keeps a b → Keeps b c → Keeps a c
Keeps-trans p q = record {
  blobs = λ key t name n h. q.blobs key t name n (p.blobs key t name n h);
  configs = λ key content h. q.configs key content (p.configs key content h);
}

-- An unchanged view of blobs and configs.
Keeps-of_same :
    {b b' : Memory}
    → ((key t name : Bytes) → find_blob key t name b' ≡ find_blob key t name b)
    → ((key : Bytes) → config_of key b' ≡ config_of key b)
    → Keeps b b'
Keeps-of_same blobs configs = record {
  blobs = λ key t name n h. rw (blobs key t name) h;
  configs = λ key content h. rw (configs key) h;
}

bound_or_kept :
    (test : Bool) (content : Bytes) (o : Option Bytes)
    → o ≢ none
    → (if test then some content else o) ≢ none
bound_or_kept true content o h = λ e. cc
bound_or_kept false content o h = h

other_kept :
    (test : Bool) (o : Option Bytes) → test ≡ false → o ≢ none → (if test then none else o) ≢ none
other_kept test o other h = rw other h

not_lock_place :
    (key name key' t' name' : Bytes)
    → t' ≢ blob_locks
    → same_place key blob_locks name key' t' name' ≡ false
not_lock_place key name key' t' name' n = elim (Bool-cases (eqs blob_locks t')) [
  | inl lock ↦ absurd (n (sym ((eqs_iff blob_locks t').0 lock)))
  | inr other ↦ rw other (ground arith)
]

Keeps-create_repo : (key : Bytes) (b : Memory) → Keeps b (Memory.create_repo key b).1
Keeps-create_repo key b = Keeps-of_same (find_blob-create_repo key b) (config_of-create_repo key b)

Keeps-save_blob :
    (key t name : Bytes) (body : Reader) (b : Memory)
    → Keeps b (Blobs.save_blob key t name body b).1
Keeps-save_blob key t name body b = elim (Bool-cases body.fails) [
  | inl failed ↦ unfold Blobs.save_blob in rw (failed, Blobs.save_blob) (Keeps-refl b)
  | inr complete ↦
      unfold Blobs.save_blob in
      rw (complete, Blobs.save_blob)
        (record {
          blobs = λ key' t' name' n h. elim (store_blob_lem key t name body.content b) [
            | inl effect ↦ rw (effect.1 key' t' name') (
                bound_or_kept (same_place key t name key' t' name') body.content
                  (find_blob key' t' name' b) h)
            | inr failure ↦ rw failure.1 h
          ];
          configs = λ key' content h. rw (config_of-store_blob key t name body.content b key') h;
        })
]

pub Keeps-delete_lock :
    (key name : Bytes) (b : Memory) → Keeps b (Blobs.delete_blob key blob_locks name b).1
Keeps-delete_lock key name b = record {
  blobs = λ key' t' name' n h. elim (delete_blob_lem key blob_locks name b) [
    | inl (done, found, effect) ↦ rw (effect key' t' name') (
        other_kept (same_place key blob_locks name key' t' name') (find_blob key' t' name' b)
          (not_lock_place key name key' t' name' n) h)
    | inr (missing, nothing, same) ↦ rw same h
  ];
  configs = λ key' content h. rw (config_of-delete_blob key blob_locks name b key') h;
}

-- SaveConfig where no config is set.
Keeps-save_config :
    (key : Bytes) (body : Reader) (b : Memory)
    → config_of key b ≡ none
    → Keeps b (Memory.save_config key body b).1
Keeps-save_config key body b unset = elim (Bool-cases body.fails) [
  | inl failed ↦ unfold Memory.save_config in rw (failed, Memory.save_config) (Keeps-refl b)
  | inr complete ↦
      unfold Memory.save_config in
      rw (complete, Memory.save_config)
        (record {
          blobs =
              λ key' t' name' n h. rw (find_blob-store_config key body.content b key' t' name') h;
          configs = λ key' content h. elim (Bool-cases (eqs key key')) [
            | inl same ↦
                absurd (let view = ap (λ k. config_of k b) ((eqs_iff key key').0 same) in cc)
            | inr other ↦ rw (config_of-store_config key body.content b key' other) h
          ];
        })
]

-- The handler that rejects deletions.
abbrev pub append_only_handler : ApiHandler Memory
append_only_handler = record { backend = backend; append_only = true }

-- A test that refuses a request keeps the state, whatever the handler behind it does.
Keeps-if :
    (test : Bool) (r : Reply) (b : Memory) (rest : Reply × Memory)
    → Keeps b rest.1
    → Keeps b (if test then (r, b) else rest).1
Keeps-if true r b rest h = Keeps-refl b
Keeps-if false r b rest h = h

Keeps-checked_blob :
    (next : Handler Memory) (c : Request) (b : Memory)
    → Keeps b (next c b).1
    → Keeps b (checked_blob next c b).1
Keeps-checked_blob next c b h =
    unfold checked_blob in
    Keeps-if (not (valid_blob_type (blob_type c))) (invalid_type c) b
      (if not (valid_blob_name (blob_name c)) then (invalid_name c, b) else next c b)
      (Keeps-if (not (valid_blob_name (blob_name c))) (invalid_name c) b (next c b) h)

Keeps-guard_config :
    (c : Request) (b : Memory)
    → Keeps b (guard_config append_only_handler c b (Memory.stat_config c.repo_prefix b)).1
Keeps-guard_config c b = elim (Option-cases (config_of c.repo_prefix b)) [
  | inl unset ↦
      unfold Memory.stat_config in
      rw (unset, Memory.stat_config) (Keeps-save_config c.repo_prefix c.body b unset)
  | inr (content, present) ↦
      unfold Memory.stat_config in rw (present, Memory.stat_config) (Keeps-refl b)
]

Keeps-delete_checked :
    (c : Request) (b : Memory) → Keeps b (delete_checked append_only_handler c b).1
Keeps-delete_checked c b = elim (Bool-cases (eqs (blob_type c) blob_locks)) [
  | inl lock ↦ rw lock (
      subst (λ t. Keeps b (Blobs.delete_blob c.repo_prefix t (blob_name c) b).1)
        (sym ((eqs_iff (blob_type c) blob_locks).0 lock))
        (Keeps-delete_lock c.repo_prefix (blob_name c) b))
  | inr other ↦ rw other (Keeps-refl b)
]

pub handle-Keeps :
    (e : Endpoint) (c : Request) (b : Memory) → Keeps b (handle e append_only_handler c b).1
handle-Keeps Endpoint.create_repo c b =
    unfold Repo.create_repo in
    Keeps-if (not (eqs c.create_param (codes "true"))) (create_refused c) b
      (
        create_result c (Memory.create_repo c.repo_prefix b).0,
        (Memory.create_repo c.repo_prefix b).1,
      )
      (Keeps-create_repo c.repo_prefix b)
handle-Keeps Endpoint.delete_repo c b = unfold Repo.delete_repo in Keeps-refl b
handle-Keeps Endpoint.save_config c b = unfold Config.save_config in Keeps-guard_config c b
handle-Keeps Endpoint.save_blob c b =
    unfold Blob.save_blob in
    Keeps-checked_blob (save_checked append_only_handler) c b
      (Keeps-save_blob c.repo_prefix (blob_type c) (blob_name c) c.body b)
handle-Keeps Endpoint.delete_blob c b =
    unfold Blob.delete_blob in
    Keeps-checked_blob (delete_checked append_only_handler) c b (Keeps-delete_checked c b)
handle-Keeps Endpoint.list_blobs c b =
    unfold Listing.list_blobs in
    Keeps-if (not (valid_blob_type (blob_type c))) (invalid_type c) b
      (list_result c (Blobs.list_blobs c.repo_prefix (blob_type c) b), b) (Keeps-refl b)
handle-Keeps Endpoint.get_blob c b =
    unfold Blob.get_blob in Keeps-checked_blob (get_checked append_only_handler) c b (Keeps-refl b)
handle-Keeps Endpoint.head_blob c b =
    unfold Blob.head_blob in
    Keeps-checked_blob (head_checked append_only_handler) c b (Keeps-refl b)
handle-Keeps Endpoint.get_config c b = unfold Config.get_config in Keeps-refl b
handle-Keeps Endpoint.head_config c b = unfold Config.head_config in Keeps-refl b

serve_all-Keeps :
    (requests : List (Endpoint × Request)) (b : Memory)
    → Keeps b (serve_all append_only_handler requests b)
unfolding serve_all
serve_all-Keeps [] b = Keeps-refl b
serve_all-Keeps ((e, c) ∷ requests) b =
    Keeps-trans (handle-Keeps e c b) (serve_all-Keeps requests (handle e append_only_handler c b).1)

-- In append-only mode no sequence of requests, whatever they ask for, removes a blob that is not a
-- lock.
pub serve_all-keeps_blobs :
    (requests : List (Endpoint × Request)) (b : Memory) (key t name : Bytes)
    → t ≢ blob_locks
    → find_blob key t name b ≢ none
    → find_blob key t name (serve_all append_only_handler requests b) ≢ none
serve_all-keeps_blobs requests b = (serve_all-Keeps requests b).blobs

-- In append-only mode no sequence of requests changes a config that has been set.
pub serve_all-keeps_config :
    (requests : List (Endpoint × Request)) (b : Memory) (key content : Bytes)
    → config_of key b ≡ some content
    → config_of key (serve_all append_only_handler requests b) ≡ some content
serve_all-keeps_config requests b = (serve_all-Keeps requests b).configs
