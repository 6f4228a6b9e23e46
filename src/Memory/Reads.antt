-- ===== src/Memory/Reads.antt =====
-- The range that GetBlob of the memory backend returns, and the case in which it panics.
use ts_restic_server.Common.{
  ℕ, ◌+◌, ◌-◌, ◌≤◌, ◌<◌, ◌≡◌, true, false, ◌&&◌, Option, none, some, [], arith, if◌then◌else◌, ◌==◌,
  length, take, drop, ltb, Bool-cases, inl, inr, take_all, drop_all, length-drop, ltb→lt, sym, ap,
  Option-cases,
}
use ts_restic_server.Common.Text.{Bytes}
use ts_restic_server.Common.Int64.{add64, lt64, half, add64_small, lt64_small}
use ts_restic_server.Storage.{Result, ok, err, panic, not_found}
use ts_restic_server.Memory.{Memory}
use ts_restic_server.Common.Dict.{get, size-le-total}
use ts_restic_server.Memory.Usage.{IsSound, bucket_size-le}
use ts_restic_server.Memory.Blobs.{find_blob, slice, slice_end, read_blob, get_blob}

-- The bytes from `offset` on, at most `count` of them unless `count` is 0.
abbrev pub window : ℕ → ℕ → Bytes → Bytes
window offset count content =
    if count == 0 then drop offset content else take count (drop offset content)

slice_end_lem :
    (size offset count : ℕ)
    → size < half
    → offset + count < half
    → slice_end size offset count
      ≡ (if ltb 0 count && ltb (offset + count) size then offset + count else size)
unfolding slice_end
slice_end_lem size offset count h k = rw (
  add64_small offset count (omega arith),
  lt64_small 0 count (omega arith) (omega arith),
  lt64_small (offset + count) size k h,
)

slice_lem :
    (offset end : ℕ) (content : Bytes)
    → length content < half
    → offset ≤ end
    → end ≤ length content
    → slice offset end content ≡ ok (take (end - offset) (drop offset content))
unfolding slice
slice_lem offset end content h k m =
    rw
      (
        lt64_small offset 0 (omega arith) (omega arith),
        lt64_small end offset (omega arith) (omega arith),
        lt64_small (length content) end h (omega arith),
      )
      (ground arith)

window_past :
    (offset count : ℕ) (content : Bytes)
    → length content ≤ offset
    → window offset count content ≡ []
window_past offset count content h =
    ground (arith, drop_all offset content h, take_all {A = ℕ} count [])

-- The part of a blob from an offset inside it.
module _ (content : Bytes) (offset count : ℕ) (h : length content < half)
    (k : offset + count < half) (inside : offset < length content) where
  in_window :
      (ltb 0 count && ltb (offset + count) (length content)) ≡ true
      → slice offset (slice_end (length content) offset count) content
        ≡ ok (window offset count content)
  in_window test =
      rw (slice_end_lem (length content) offset count h k, test)
        (rw (slice_lem offset (offset + count) content h (omega arith) (ground arith))
          (ground arith))

  to_the_end :
      (ltb 0 count && ltb (offset + count) (length content)) ≡ false
      → slice offset (slice_end (length content) offset count) content
        ≡ ok (window offset count content)
  to_the_end test =
      rw (slice_end_lem (length content) offset count h k, test)
        (rw (slice_lem offset (length content) content h (omega arith) (omega arith)) (
          ground (
            arith,
            length-drop offset content,
            take_all count (drop offset content),
            take_all (length content - offset) (drop offset content),
          )))

-- A read that does not wrap returns the requested range, cut off at the end of the blob.
pub read_blob_lem :
    (content : Bytes) (offset count : ℕ)
    → length content < half
    → offset + count < half
    → read_blob content offset count ≡ ok (window offset count content)
unfolding read_blob
read_blob_lem content offset count h k =
    rw (lt64_small offset (length content) (omega arith) h)
      (elim (Bool-cases (ltb offset (length content))) [
        | inl inside ↦
            rw inside (elim (Bool-cases (ltb 0 count && ltb (offset + count) (length content))) [
              | inl test ↦ in_window content offset count h k (ltb→lt _ _ inside) test
              | inr test ↦ to_the_end content offset count h k (ltb→lt _ _ inside) test
            ])
        | inr past ↦ rw past (ap ok (sym (window_past offset count content (ground arith))))
      ])

-- A count for which offset + count wraps makes the end of the slice negative, and the slice panics.
pub read_blob_panic :
    (content : Bytes) (offset count : ℕ)
    → length content < half
    → offset < length content
    → count < half
    → half ≤ offset + count
    → read_blob content offset count ≡ panic
unfolding read_blob slice slice_end add64 lt64
read_blob_panic content offset count h inside k wraps = ground arith

-- No stored blob is longer than the bytes in use.
pub find_blob-small :
    (key t name : Bytes) (b : Memory) (content : Bytes)
    → IsSound b
    → find_blob key t name b ≡ some content
    → length content < half
find_blob-small key t name b content s found = elim (Option-cases (get b.repos key)) [
  | inl absent ↦ absurd (unfold find_blob in cc (rw (absent, find_blob) at found))
  | inr (r, present) ↦ elim (Option-cases (get r.blobs t)) [
    | inl no_bucket ↦ absurd (unfold find_blob in cc (rw (present, no_bucket, find_blob) at found))
    | inr (bucket, here) ↦
        let in_bucket : get bucket name ≡ some content =
          unfold find_blob in rw (present, here, find_blob) at found in
        omega (
          arith,
          bucket_size-le key b s r present t bucket here,
          rw in_bucket at (size-le-total length bucket name),
          s.within,
          s.limit,
        )
  ]
]

-- What a read of a place answers: ErrNotFound where it is empty, else the range of its contents.
abbrev pub fetched : ℕ → ℕ → Option Bytes → Result Bytes
fetched offset count none = err not_found
fetched offset count (some content) = ok (window offset count content)

-- Where the quota is sound, a read with offset + length below 2^63 answers ErrNotFound where no blob
-- stands, and otherwise the requested bytes of the blob, cut off at its end.
pub get_blob_lem :
    (key t name : Bytes) (offset count : ℕ) (b : Memory)
    → IsSound b
    → offset + count < half
    → get_blob key t name offset count b ≡ fetched offset count (find_blob key t name b)
get_blob_lem key t name offset count b s k = elim (Option-cases (find_blob key t name b)) [
  | inl absent ↦ unfold get_blob in rw (absent, get_blob)
  | inr (content, found) ↦
      unfold get_blob in
      rw (found, get_blob)
        (read_blob_lem content offset count (find_blob-small key t name b content s found) k)
]
