-- ===== src/Rclone/Ranges.antt =====
-- The range that GetBlob of internal/storage/rclone/rclone.go asks for is the range that parseRange of
-- internal/api/blob.go reads.
use ts_restic_server.Common.{
  ℕ, zero, suc, ◌+◌, ◌-◌, ◌≤◌, ◌<◌, ◌≡◌, refl, true, false, ltb, some, [], ◌∷◌, ◌++◌, arith,
  Bool-cases, inl, inr, ◌∙◌, ap,
}
use ts_restic_server.Common.Int64.{half, lt64, lt64_small, add64_small, sub64_small}
use ts_restic_server.Common.Text.{Bytes, codes, has_prefix}
use ts_restic_server.Api.Range.{with_parts, with_end, parse_range}
use ts_restic_server.Rclone.{format_int, range_value}
use ts_restic_server.Rclone.Numbers.{format_int-IsWritten, cut-digits, lt64_natural}

parse_range-dash :
    (start : ℕ) (last : Bytes)
    → start < half
    → parse_range (codes "bytes=" ++ format_int start ++ b'-' ∷ last) ≡ with_end start last
unfolding parse_range has_prefix
parse_range-dash start last h =
    let w = format_int-IsWritten start h in
    rw
      (
        w.written,
        cut-digits (w.first ∷ w.others) last (w.digit, w.digits),
        with_parts,
        w.parsed,
        lt64_natural start h,
      )
      refl

with_end-last :
    (start end : ℕ)
    → end < half
    → start ≤ end
    → with_end start (format_int end) ≡ some (start, end - start + 1)
with_end-last start end h k =
    let w = format_int-IsWritten end h in
    let lem : ltb end start ≡ false = ground (arith, k) in
    rw
      (
        w.written,
        with_end,
        w.parsed,
        lt64_natural end h,
        lt64_small end start h (omega arith),
        lem,
        sub64_small end start (omega arith) k,
        add64_small (end - start) 1 (omega arith),
      )
      refl

-- What GetBlob writes into the header, where it asks for a number of bytes.
range_value_limited :
    (offset count : ℕ)
    → offset + count ≤ half
    → count < half
    → 0 < count
    → range_value offset count
      ≡ codes "bytes=" ++ format_int offset ++ b'-' ∷ format_int (offset + count - 1)
unfolding range_value
range_value_limited offset count h k pos =
    let sum = add64_small offset count (omega arith) in
    let last = sub64_small (offset + count) 1 (omega arith) (omega arith) in
    let limited : lt64 0 count ≡ true = lt64_small 0 count (omega arith) k ∙ ground (arith, pos) in
    elim (Bool-cases (lt64 0 offset)) [
      | inl skips ↦ rw (skips, limited, sum, last) refl
      | inr starts ↦ rw (starts, limited, sum, last) refl
    ]

-- What it writes where it asks for the rest.
range_value_open :
    (offset : ℕ)
    → offset < half
    → 0 < offset
    → range_value offset 0 ≡ codes "bytes=" ++ format_int offset ++ b'-' ∷ []
unfolding range_value
range_value_open offset h pos =
    let skips : lt64 0 offset ≡ true = lt64_small 0 offset (omega arith) h ∙ ground (arith, pos) in
    let limited : lt64 0 0 ≡ false = lt64_natural 0 (omega arith) in rw (skips, limited) refl

-- A server reads the range header of GetBlob as the offset and the length that GetBlob was asked for,
-- where they are not negative, the range does not end behind 2^63, and it is not the whole blob.
pub parse_range-range_value :
    (offset count : ℕ)
    → offset < half
    → count < half
    → offset + count ≤ half
    → 0 < offset + count
    → parse_range (range_value offset count) ≡ some (offset, count)
parse_range-range_value offset zero h k sum pos =
    rw (range_value_open offset h (omega arith)) (parse_range-dash offset [] h)
parse_range-range_value offset (suc n) h k sum pos =
    rw (range_value_limited offset (suc n) sum k (omega arith)) (
      parse_range-dash offset (format_int (offset + suc n - 1)) h
      ∙ with_end-last offset (offset + suc n - 1) (omega arith) (omega arith)
      ∙ ap (λ x. some (offset, x)) (omega arith))
