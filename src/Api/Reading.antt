-- ===== src/Api/Reading.antt =====
-- GetBlob and SaveBlob of internal/api/blob.go over the memory backend.
use ts_restic_server.Common.{
  ℕ, ◌+◌, ◌-◌, ◌≤◌, ◌<◌, ◌≡◌, refl, ◌≢◌, inl, inr, Bool, true, false, ◌||◌, some, [], ◌∷◌, arith,
  if◌then◌else◌, ◌==◌, length, take, drop, ltb, Bool-cases, lt→ltb, ltb→lt,
}
use ts_restic_server.Common.Text.{Bytes, codes, eqs_self}
use ts_restic_server.Common.Int64.{half, add64_small, sub64_small, lt64_small}
use ts_restic_server.Storage.{
  Result, ok, err, panic, Error, quota_exceeded, Reader, valid_blob_type, valid_blob_name,
}
use ts_restic_server.Http.{
  Request, text, number, byte_range, stream, Reply, reply, panicked, Handler,
}
use ts_restic_server.Memory.{Memory}
use ts_restic_server.Memory.Blobs
use ts_restic_server.Memory.Blobs.{find_blob, backend}
use ts_restic_server.Memory.Usage.{IsSound}
use ts_restic_server.Memory.Lookup.{store_blob_lem}
use ts_restic_server.Memory.Reads.{window, get_blob_lem, find_blob-small, read_blob_panic}
use ts_restic_server.Api.{
  ApiHandler, api_error, empty_reply, save_error, checked_blob, blob_type, blob_name,
}
use ts_restic_server.Api.Blob
use ts_restic_server.Api.Blob.{
  save_checked, save_result, get_checked, get_requested, get_range, range_result, unsatisfiable,
}
use ts_restic_server.Api.Range.{parse_range, clamp_length, clamp_length_lem, clamp_length_wraps}

-- A request that passes the checks of the blob handlers.
abbrev pub IsBlobRequest : Request → Type 0
IsBlobRequest c = (valid_blob_type (blob_type c) ≡ true) × (valid_blob_name (blob_name c) ≡ true)

checked_blob_lem :
    {S : Type 0} (next : Handler S) (c : Request) (s : S)
    → IsBlobRequest c
    → checked_blob next c s ≡ next c s
unfolding checked_blob
checked_blob_lem next c s (valid_type, valid_name) = rw (valid_type, valid_name)

-- A partial reply whose headers describe its body: the bytes offset … offset + n - 1 of the blob.
abbrev pub partial : ℕ → ℕ → Bytes → Reply
partial offset n content = reply (record {
  status = 206;
  headers =
      (codes "Content-Range", byte_range offset (offset + n - 1) (length content))
      ∷ (codes "Content-Length", number n)
      ∷ (codes "Accept-Ranges", text (codes "bytes"))
      ∷ [];
  body = stream (take n (drop offset content));
})

module _ (c : Request) (b : Memory) (request : IsBlobRequest c) (sound : IsSound b)
    (content : Bytes)
    (found : find_blob c.repo_prefix (blob_type c) (blob_name c) b ≡ some content) where
  stat_found : Blobs.stat_blob c.repo_prefix (blob_type c) (blob_name c) b ≡ ok (length content)
  stat_found = unfold Blobs.stat_blob in rw (found, Blobs.stat_blob)

  small : length content < half
  small = find_blob-small c.repo_prefix (blob_type c) (blob_name c) b content sound found

  get_range_found :
      (offset count : ℕ)
      → offset + count < half
      → Blobs.get_blob c.repo_prefix (blob_type c) (blob_name c) offset count b
        ≡ ok (window offset count content)
  get_range_found offset count k =
      rw (get_blob_lem c.repo_prefix (blob_type c) (blob_name c) offset count b sound k, found)

  inside_lem :
      (offset asked : ℕ)
      → 0 < asked
      → offset + asked ≤ length content
      → range_result c
          (length content)
          offset
          asked
          (Blobs.get_blob c.repo_prefix (blob_type c) (blob_name c) offset asked b)
        ≡ partial offset asked content
  inside_lem offset asked pos fits =
      let positive : (asked == 0) ≡ false = ground arith in
      let room = small in
      rw (
        get_range_found offset asked (omega arith),
        positive,
        add64_small offset asked (omega arith),
        sub64_small (offset + asked) 1 (omega arith) (omega arith),
      )

  module _ (append_only : Bool) (offset count : ℕ)
      (parsed : parse_range c.range_header ≡ some (offset, count)) where
    to_range :
        (Blob.get_blob (record { backend = backend; append_only = append_only }) c b).0
        ≡ get_range
            (record { backend = backend; append_only = append_only })
            c
            b
            offset
            count
            (ok (length content))
    to_range =
        let h : ApiHandler Memory = record { backend = backend; append_only = append_only } in
        unfold Blob.get_blob get_requested in
        rw (checked_blob_lem (get_checked h) c b request, parsed, stat_found)

    range_inside :
        offset < length content
        → get_range
            (record { backend = backend; append_only = append_only })
            c
            b
            offset
            count
            (ok (length content))
          ≡ range_result c (length content) offset (clamp_length (length content) offset count) (
              Blobs.get_blob c.repo_prefix
                (blob_type c)
                (blob_name c)
                offset
                (clamp_length (length content) offset count)
                b)
    range_inside inside =
        let room = small in
        unfold get_range in
        rw (
          lt64_small offset (length content) (omega arith) small,
          lt→ltb offset (length content) inside,
        )

    range_past :
        ltb offset (length content) ≡ false
        → offset < half
        → get_range
            (record { backend = backend; append_only = append_only })
            c
            b
            offset
            count
            (ok (length content))
          ≡ unsatisfiable c (length content)
    range_past past k = unfold get_range in rw (lt64_small offset (length content) k small, past)

    -- A range request for a blob that is stored, where the quota is sound and the range ends below
    -- 2^63: 416 where the range starts past the end, and otherwise the bytes of the range that the
    -- blob has, with headers that describe them.
    pub get_blob-range :
        offset + count < half
        → (Blob.get_blob (record { backend = backend; append_only = append_only }) c b).0 ≡ (
            if ltb offset (length content)
            then partial offset
                (if (count == 0) || ltb (length content) (offset + count)
                  then length content - offset
                  else count)
                content
            else unsatisfiable c (length content))
    get_blob-range k = elim (Bool-cases (ltb offset (length content))) [
      | inl inside ↦
          let (value, pos, fits) =
            clamp_length_lem (length content) offset count small
              (ltb→lt offset (length content) inside) k in
          rw (
            inside,
            to_range,
            range_inside (ltb→lt offset (length content) inside),
            inside_lem offset (clamp_length (length content) offset count) pos fits,
            value,
          )
      | inr past ↦ rw (past, to_range, range_past past (omega arith))
    ]

    -- Where the quota is sound, a range that starts in the blob but not at 0 and whose offset +
    -- length is 2^63, as of "bytes=1-9223372036854775807", makes the backend panic.
    pub get_blob-panics :
        0 < offset
        → offset < length content
        → offset + count ≡ half
        → (Blob.get_blob (record { backend = backend; append_only = append_only }) c b).0 ≡ panicked
    get_blob-panics pos inside end =
        let (value, past) = clamp_length_wraps (length content) offset count small inside pos end in
        let crash : Blobs.get_blob c.repo_prefix (blob_type c) (blob_name c) offset count b
            ≡ panic =
          unfold Blobs.get_blob in
          rw (found, Blobs.get_blob)
            (read_blob_panic content offset count small inside (omega arith) (omega arith)) in
        rw (to_range, range_inside inside, value, crash)

error_status-ne-200 : (c : Request) (e : Error) → save_error c e ≢ empty_reply 200
unfolding api_error
error_status-ne-200 c quota_exceeded h = cc
error_status-ne-200 c _ h = cc

ok_of_200 : (c : Request) (r : Result (Unit {0})) → save_result c r ≡ empty_reply 200 → r ≡ ok tt
ok_of_200 c (ok u) h = refl
ok_of_200 c (err e) h = absurd (error_status-ne-200 c e h)
ok_of_200 c panic h = cc

-- The backend's save, where it succeeds.
save_blob-found :
    (key t name : Bytes) (body : Reader) (b : Memory)
    → (Blobs.save_blob key t name body b).0.result ≡ ok tt
    → find_blob key t name (Blobs.save_blob key t name body b).1 ≡ some body.content
save_blob-found key t name body b saved = elim (Bool-cases body.fails) [
  | inl failed ↦ absurd (unfold Blobs.save_blob in cc (rw (failed, Blobs.save_blob) at saved))
  | inr complete ↦
      unfold Blobs.save_blob in
      rw (complete, Blobs.save_blob)
        (elim (store_blob_lem key t name body.content b) [
          | inl effect ↦ rw (effect.1 key t name, eqs_self key, eqs_self t, eqs_self name)
          | inr failure ↦ absurd (failure.0 (rw (complete, Blobs.save_blob) at saved))
        ])
]

-- A SaveBlob that answers 200 has bound the blob to the body of the request, in append-only mode as
-- in any other, and also where another blob stood under that name.
pub save_blob-binds :
    (append_only : Bool) (c : Request) (b : Memory)
    → IsBlobRequest c
    → (Blob.save_blob (record { backend = backend; append_only = append_only }) c b).0
      ≡ empty_reply 200
    → find_blob c.repo_prefix
        (blob_type c)
        (blob_name c)
        (Blob.save_blob (record { backend = backend; append_only = append_only }) c b).1
      ≡ some c.body.content
save_blob-binds append_only c b request answered =
    let h : ApiHandler Memory = record { backend = backend; append_only = append_only } in
    let same : Blob.save_blob h c b ≡ save_checked h c b =
      unfold Blob.save_blob in checked_blob_lem (save_checked h) c b request in
    rw same (
      save_blob-found c.repo_prefix (blob_type c) (blob_name c) c.body b
        (ok_of_200 c _ (rw same at answered)))
