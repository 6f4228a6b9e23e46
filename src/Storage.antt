-- ===== src/Storage.antt =====
-- internal/storage/types.go and backend.go: blob types and names, errors, and the interface that
-- every backend implements. A context shows a backend nothing but its repository prefix.
pub mod Wrapper
use ts_restic_server.Common.{
  ℕ, Bool, false, ◌&&◌, ◌||◌, List, [], ◌∷◌, if◌then◌else◌, leb, all, length,
}
use ts_restic_server.Common.Text.{Bytes, codes, eqs}

-- The five constants of ErrXxx, a failing reader, and any other error.
pub data Error : Type 0 where
  not_found already_exists quota_exceeded repo_not_found repo_exists read_failed other : Error

-- What a call returns, or the panic that it raises.
pub data Result {ℓ} (A : Type ℓ) : Type ℓ where
  ok : A → Result A
  err : Error → Result A
  panic : Result A

-- BlobData … BlobIndex
abbrev pub blob_data : Bytes
blob_data = codes "data"

abbrev pub blob_keys : Bytes
blob_keys = codes "keys"

abbrev pub blob_locks : Bytes
blob_locks = codes "locks"

abbrev pub blob_snapshots : Bytes
blob_snapshots = codes "snapshots"

abbrev pub blob_index : Bytes
blob_index = codes "index"

-- ValidBlobTypes, as the list of its keys
abbrev pub valid_blob_types : List Bytes
valid_blob_types = blob_data ∷ blob_keys ∷ blob_locks ∷ blob_snapshots ∷ blob_index ∷ []

-- ValidBlobTypes[t]
unfoldable pub valid_blob_type : Bytes → Bool
unfolding eqs
valid_blob_type t =
    eqs t blob_data
    || eqs t blob_keys
    || eqs t blob_locks
    || eqs t blob_snapshots
    || eqs t blob_index

-- the class [0-9a-fA-F]
abbrev pub hex_digit : ℕ → Bool
hex_digit c = (leb b'0' c && leb c b'9') || (leb b'a' c && leb c b'f') || (leb b'A' c && leb c b'F')

-- ValidBlobName: ^[0-9a-fA-F]+$
unfoldable pub valid_blob_name : Bytes → Bool
valid_blob_name [] = false
valid_blob_name (c ∷ s) = all hex_digit (c ∷ s)

pub record Blob : Type 0 where
  pub name : Bytes
  pub size : ℕ

-- An io.Reader: the bytes that it delivers before it ends, and whether it ends with an error.
pub record Reader : Type 0 where
  pub content : Bytes
  pub fails : Bool

-- io.ReadAll
abbrev pub read_all : Reader → Result Bytes
read_all r = if r.fails then err read_failed else ok r.content

-- The result of a save, with the number of bytes that it read from the reader.
pub record Saved : Type 0 where
  pub result : Result (Unit {0})
  pub read : ℕ

-- storage.Backend over a state S. The first argument is the context's repository prefix, and a
-- ReadCloser is the bytes that it will deliver.
pub record Backend (S : Type 0) : Type 0 where
  pub create_repo : Bytes → S → Result (Unit {0}) × S
  pub delete_repo : Bytes → S → Result (Unit {0}) × S
  pub stat_config : Bytes → S → Result ℕ
  pub get_config : Bytes → S → Result Bytes
  pub save_config : Bytes → Reader → S → Saved × S
  pub stat_blob : Bytes → Bytes → Bytes → S → Result ℕ
  pub get_blob : Bytes → Bytes → Bytes → ℕ → ℕ → S → Result Bytes
  pub save_blob : Bytes → Bytes → Bytes → Reader → S → Saved × S
  pub delete_blob : Bytes → Bytes → Bytes → S → Result (Unit {0}) × S
  pub list_blobs : Bytes → Bytes → S → Result (List Blob)

-- The calls of a backend that change its state, with the repository prefix first.
pub data Call : Type 0 where
  create_call delete_call : Bytes → Call
  save_config_call : Bytes → Reader → Call
  save_blob_call : Bytes → Bytes → Bytes → Reader → Call
  delete_blob_call : Bytes → Bytes → Bytes → Call

-- The state after a call, whether it succeeds or fails.
abbrev pub after_call : {S : Type 0} → Backend S → Call → S → S
after_call b (create_call key) s = (b.create_repo key s).1
after_call b (delete_call key) s = (b.delete_repo key s).1
after_call b (save_config_call key body) s = (b.save_config key body s).1
after_call b (save_blob_call key t name body) s = (b.save_blob key t name body s).1
after_call b (delete_blob_call key t name) s = (b.delete_blob key t name s).1

unfoldable pub after_calls : {S : Type 0} → Backend S → List Call → S → S
after_calls b [] s = s
after_calls b (c ∷ cs) s = after_calls b cs (after_call b c s)

-- The bytes that a call sends.
abbrev pub body_size : Call → ℕ
body_size (save_config_call key body) = length body.content
body_size (save_blob_call key t name body) = length body.content
body_size _ = 0
