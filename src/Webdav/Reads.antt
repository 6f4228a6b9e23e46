-- ===== src/Webdav/Reads.antt =====
-- What GetBlob and DeleteBlob of internal/storage/webdav/webdav.go do after SaveBlob.
use ts_restic_server.Common.{ℕ, ◌≡◌, ◌<◌, ◌+◌, ◌⊎◌, false, length, take, drop, Option, none, some}
use ts_restic_server.Common.Int64.{half}
use ts_restic_server.Common.Text.{Bytes, codes, contains}
use ts_restic_server.Storage.{Reader}
use ts_restic_server.Files.{Answer, done, failed, CallError}
use ts_restic_server.Webdav.{is_not_found, DavClient, Webdav}

-- A call on a file that is there: its answer, or an error that does not say that the file is missing.
abbrev pub IsReadOr : Bytes → Answer Bytes → Type 0
IsReadOr c a = (a ≡ done c) ⊎ ((e : CallError) × (a ≡ failed e) × (is_not_found e ≡ false))

-- A path that has in it neither of the texts by which isNotFound tells an error: the text of an error
-- may name the path.
abbrev pub IsTold : Bytes → Type 0
IsTold p = (contains p (codes "404") ≡ false) × (contains p (codes "Not Found") ≡ false)

-- What the backend relies on of its client: a write without an error has sent the whole body, and a
-- read of a file that is there, whole or in a range of positive length that starts inside of it and
-- whose end is an int64, gives its bytes or fails, but not because the file is missing. The errors of
-- paths with the texts of isNotFound are left out.
pub record IsLawful {S : Type 0} (client : DavClient S) (content : S → Bytes → Option Bytes)
    : Type 0 where
  pub write_done :
      (s : S) (p : Bytes) (body : Reader)
      → (client.write_stream p body s).0 ≡ done tt
      → content (client.write_stream p body s).1 p ≡ some body.content
  pub read_there :
      (s : S) (p c : Bytes) → content s p ≡ some c → IsTold p → IsReadOr c (client.read_stream p s)
  pub range_there :
      (s : S) (p c : Bytes) (offset count : ℕ)
      → content s p ≡ some c
      → IsTold p
      → offset < length c
      → 0 < count
      → offset + count < half
      → IsReadOr (take count (drop offset c)) (client.read_stream_range p offset count s)

-- The bytes of a range, or all where nothing is asked for.
abbrev pub range_of : Option (ℕ × ℕ) → Bytes → Bytes
range_of none c = c
range_of (some (offset, count)) c = take count (drop offset c)

abbrev pub offset_of : Option (ℕ × ℕ) → ℕ
offset_of none = 0
offset_of (some (offset, count)) = offset

abbrev pub count_of : Option (ℕ × ℕ) → ℕ
count_of none = 0
count_of (some (offset, count)) = count

-- A range of positive length that starts inside and ends below 2^63.
abbrev pub IsRangeOf : Option (ℕ × ℕ) → Bytes → Type 0
IsRangeOf none c = Unit
IsRangeOf (some (offset, count)) c = (offset < length c) × (0 < count) × (offset + count < half)
