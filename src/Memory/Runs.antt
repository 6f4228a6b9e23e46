-- ===== src/Memory/Runs.antt =====
-- Sequences of calls of the memory backend: after each, usedBytes counts what is stored and is
-- within the quota. A blob that was saved is what a read returns.
use ts_restic_server.Common.{
  ℕ, ◌+◌, ◌≤◌, ◌<◌, ◌≡◌, refl, sym, List, [], ◌∷◌, arith, length, Bool-cases, inl, inr, All, subst,
  ◌∙◌,
}
use ts_restic_server.Common.Text.{Bytes, eqs_self}
use ts_restic_server.Common.Int64.{half}
use ts_restic_server.Storage.{
  ok, Reader, Call, create_call, delete_call, save_config_call, save_blob_call, delete_blob_call,
  after_call, after_calls, body_size,
}
use ts_restic_server.Memory.{Memory, new, create_repo, delete_repo, store_config, save_config}
use ts_restic_server.Memory.Blobs.{
  backend, store_in_bucket, store_blob, save_blob, delete_in_bucket, delete_blob, get_blob,
}
use ts_restic_server.Memory.Usage.{
  IsSound, new-IsSound, create_repo-IsSound, delete_repo-IsSound, store_config-IsSound,
  stored_bytes,
}
use ts_restic_server.Memory.Usage.Blobs.{store_blob-IsSound, delete_blob-IsSound}
use ts_restic_server.Memory.Lookup.{store_blob_lem}
use ts_restic_server.Memory.Reads.{get_blob_lem}

pub save_config-IsSound :
    (key : Bytes) (body : Reader) (b : Memory)
    → b.max_bytes + length body.content < half
    → IsSound b
    → IsSound (save_config key body b).1
save_config-IsSound key body b h s = elim (Bool-cases body.fails) [
  | inl failed ↦ unfold save_config in rw (failed, save_config) s
  | inr complete ↦
      unfold save_config in rw (complete, save_config) (store_config-IsSound key body.content b h s)
]

pub save_blob-IsSound :
    (key t name : Bytes) (body : Reader) (b : Memory)
    → b.max_bytes + length body.content < half
    → IsSound b
    → IsSound (save_blob key t name body b).1
save_blob-IsSound key t name body b h s = elim (Bool-cases body.fails) [
  | inl failed ↦ unfold save_blob in rw (failed, save_blob) s
  | inr complete ↦
      unfold save_blob in
      rw (complete, save_blob) (store_blob-IsSound key t name body.content b h s)
]

after_call-IsSound :
    (c : Call) (b : Memory)
    → b.max_bytes + body_size c < half
    → IsSound b
    → IsSound (after_call backend c b)
after_call-IsSound (create_call key) b h s = create_repo-IsSound key b s
after_call-IsSound (delete_call key) b h s = delete_repo-IsSound key b s
after_call-IsSound (save_config_call key body) b h s = save_config-IsSound key body b h s
after_call-IsSound (save_blob_call key t name body) b h s = save_blob-IsSound key t name body b h s
after_call-IsSound (delete_blob_call key t name) b h s = delete_blob-IsSound key t name b s

-- No call changes the limit.
max_bytes-after_call : (c : Call) (b : Memory) → (after_call backend c b).max_bytes ≡ b.max_bytes
unfolding create_repo delete_repo save_config store_config save_blob store_blob store_in_bucket
    delete_blob delete_in_bucket
max_bytes-after_call (create_call key) b = ground arith
max_bytes-after_call (delete_call key) b = ground arith
max_bytes-after_call (save_config_call key body) b = ground arith
max_bytes-after_call (save_blob_call key t name body) b = ground arith
max_bytes-after_call (delete_blob_call key t name) b = ground arith

after_calls-IsSound :
    (cs : List Call) (b : Memory)
    → All (λ c. b.max_bytes + body_size c < half) cs
    → IsSound b
    → IsSound (after_calls backend cs b)
unfolding after_calls
after_calls-IsSound [] b h s = s
after_calls-IsSound (c ∷ cs) b (here, h) s =
    after_calls-IsSound cs (after_call backend c b)
      (subst (λ limit. All (λ d. limit + body_size d < half) cs) (sym (max_bytes-after_call c b)) h)
      (after_call-IsSound c b here s)

max_bytes-after_calls :
    (cs : List Call) (b : Memory) → (after_calls backend cs b).max_bytes ≡ b.max_bytes
unfolding after_calls
max_bytes-after_calls [] b = refl
max_bytes-after_calls (c ∷ cs) b =
    max_bytes-after_calls cs (after_call backend c b) ∙ max_bytes-after_call c b

-- From an empty backend, whatever calls follow and whether they succeed or fail: usedBytes is the
-- number of bytes stored, and at most maxBytes. No body is so large that the sum with maxBytes
-- reaches 2^63.
pub usage_within_limit :
    (max_bytes : ℕ) (cs : List Call)
    → max_bytes < half
    → All (λ c. max_bytes + body_size c < half) cs
    → ((after_calls backend cs (new max_bytes)).used_bytes
        ≡ stored_bytes (after_calls backend cs (new max_bytes)))
      × (stored_bytes (after_calls backend cs (new max_bytes)) ≤ max_bytes)
unfolding new
usage_within_limit max_bytes cs h fits =
    let final = after_calls-IsSound cs (new max_bytes) fits (new-IsSound max_bytes h) in
    let same = max_bytes-after_calls cs (new max_bytes) in
    (final.counted, omega (arith, final.counted, final.within, same))

get_blob-store_blob :
    (key t name buf : Bytes) (b : Memory)
    → IsSound b
    → b.max_bytes + length buf < half
    → (store_blob key t name buf b).0 ≡ ok tt
    → get_blob key t name 0 0 (store_blob key t name buf b).1 ≡ ok buf
get_blob-store_blob key t name buf b s h saved = elim (store_blob_lem key t name buf b) [
  | inl effect ↦ rw (
    get_blob_lem key t name 0 0 (store_blob key t name buf b).1
        (store_blob-IsSound key t name buf b h s) (omega arith),
    effect.1 key t name,
    eqs_self key,
    eqs_self t,
    eqs_self name,
  )
  | inr failure ↦ absurd (failure.0 saved)
]

-- Where the quota is sound, and the size of the body and maxBytes are below 2^63 together: a save that
-- returns without error is what a read of the whole blob returns.
pub get_blob-save_blob :
    (key t name : Bytes) (body : Reader) (b : Memory)
    → IsSound b
    → b.max_bytes + length body.content < half
    → (save_blob key t name body b).0.result ≡ ok tt
    → get_blob key t name 0 0 (save_blob key t name body b).1 ≡ ok body.content
get_blob-save_blob key t name body b s h saved = elim (Bool-cases body.fails) [
  | inl failed ↦ absurd (unfold save_blob in cc (rw (failed, save_blob) at saved))
  | inr complete ↦
      unfold save_blob in
      rw (complete, save_blob)
        (get_blob-store_blob key t name body.content b s h (rw (complete, save_blob) at saved))
]
