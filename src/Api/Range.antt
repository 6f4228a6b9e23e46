-- ===== src/Api/Range.antt =====
-- parseRange of internal/api/blob.go, and the clamping of the range in GetBlob. Offsets and lengths
-- are int64.
use ts_restic_server.Common.{
  ℕ, ◌+◌, ◌-◌, ◌*◌, ◌≤◌, ◌<◌, ◌≡◌, Bool, true, false, ◌&&◌, ◌||◌, not, Option, none, some, [], ◌∷◌,
  arith, if◌then◌else◌, ltb, leb, ◌==◌, drop, Bool-cases, Option-cases, inl, inr,
}
use ts_restic_server.Common.Text.{Bytes, codes, has_prefix, cut}
use ts_restic_server.Common.Int64.{
  add64, sub64, lt64, half, modulus, add64_small, sub64_small, lt64_small,
}

-- the decimal digits of a number, after `n`
unfoldable pub decimal : ℕ → Bytes → Option ℕ
decimal n [] = some n
decimal n (c ∷ s) =
    let rest = decimal (n * 10 + (c - b'0')) s in if leb b'0' c && leb c b'9' then rest else none

-- an unsigned number of at least one digit
abbrev pub unsigned : Bytes → Option ℕ
unsigned [] = none
unsigned (c ∷ s) = decimal 0 (c ∷ s)

-- the number with the sign, if it is in the range of int64
abbrev pub in_range : Bool → Option ℕ → Option ℕ
in_range negative none = none
in_range true (some n) = if leb n half then some (sub64 0 n) else none
in_range false (some n) = if ltb n half then some n else none

-- strconv.ParseInt(s, 10, 64); `none` is its error
unfoldable pub parse_int : Bytes → Option ℕ
unfolding decimal
parse_int [] = none
parse_int (c ∷ s) =
    if c == b'-'
    then in_range true (unsigned s)
    else if c == b'+'
    then in_range false (unsigned s)
    else in_range false (unsigned (c ∷ s))

-- the part of parseRange after the start has been read
abbrev pub with_end : ℕ → Bytes → Option (ℕ × ℕ)
with_end start [] = some (start, 0)
with_end start (c ∷ s) = elim (parse_int (c ∷ s)) [
  | none ↦ none
  | some end ↦
      if lt64 end 0
      then none
      else if lt64 end start
      then none
      else some (start, add64 (sub64 end start) 1)
]

abbrev pub with_parts : Option (Bytes × Bytes) → Option (ℕ × ℕ)
with_parts none = none
with_parts (some ([], last)) = none
with_parts (some (c ∷ s, last)) = elim (parse_int (c ∷ s)) [
  | none ↦ none
  | some start ↦ if lt64 start 0 then none else with_end start last
]

-- parseRange; `none` where no range is requested
unfoldable pub parse_range : Bytes → Option (ℕ × ℕ)
parse_range header =
    if has_prefix header (codes "bytes=") then with_parts (cut b'-' (drop 6 header)) else none

-- offset >= totalSize
abbrev pub past_end : ℕ → ℕ → Bool
past_end offset total_size = not (lt64 offset total_size)

-- the length that GetBlob asks the backend for
unfoldable pub clamp_length : ℕ → ℕ → ℕ → ℕ
clamp_length total_size offset count =
    if not (lt64 0 count) || lt64 total_size (add64 offset count)
    then sub64 total_size offset
    else count

in_range-lt-modulus :
    (negative : Bool) (o : Option ℕ) (n : ℕ) → in_range negative o ≡ some n → n < modulus
unfolding sub64
in_range-lt-modulus negative none n h = cc
in_range-lt-modulus true (some m) n h = ground arith
in_range-lt-modulus false (some m) n h = ground arith

parse_int-lt-modulus : (s : Bytes) (n : ℕ) → parse_int s ≡ some n → n < modulus
unfolding parse_int
parse_int-lt-modulus [] n h = cc
parse_int-lt-modulus (c ∷ s) n h = ground (
  arith,
  in_range-lt-modulus true (unsigned s) n,
  in_range-lt-modulus false (unsigned s) n,
  in_range-lt-modulus false (unsigned (c ∷ s)) n,
)

-- A range of which the end does not lie before the start.
abbrev pub InRange : Option (ℕ × ℕ) → Type 0
InRange none = Unit
InRange (some (offset, count)) = (offset < half) × (offset + count ≤ half)

non_negative : (n : ℕ) → n < modulus → lt64 n 0 ≡ false → n < half
unfolding lt64
non_negative n h k = ground arith

with_end-InRange : (start : ℕ) (last : Bytes) → start < half → InRange (with_end start last)
with_end-InRange start [] h = (h, omega arith)
with_end-InRange start (c ∷ s) h = elim (Option-cases (parse_int (c ∷ s))) [
  | inl failed ↦ rw (failed, with_end) tt
  | inr (end, parsed) ↦
      rw (parsed, with_end)
        (elim (Bool-cases (lt64 end 0)) [
          | inl negative ↦ rw negative tt
          | inr natural ↦
              let e = non_negative end (parse_int-lt-modulus (c ∷ s) end parsed) natural in
              rw (natural, lt64_small end start e h)
                (elim (Bool-cases (ltb end start)) [
                  | inl before ↦ rw before tt
                  | inr after ↦
                      rw
                        (
                          after,
                          sub64_small end start (omega arith) (ground arith),
                          add64_small (end - start) 1 (omega arith),
                        )
                        (h, ground arith)
                ])
        ])
]

with_parts-InRange : (parts : Option (Bytes × Bytes)) → InRange (with_parts parts)
with_parts-InRange none = tt
with_parts-InRange (some ([], last)) = tt
with_parts-InRange (some (c ∷ s, last)) = elim (Option-cases (parse_int (c ∷ s))) [
  | inl failed ↦ rw (failed, with_parts) tt
  | inr (start, parsed) ↦
      rw (parsed, with_parts)
        (elim (Bool-cases (lt64 start 0)) [
          | inl negative ↦ rw negative tt
          | inr natural ↦ rw natural (
              with_end-InRange start last
                (non_negative start (parse_int-lt-modulus (c ∷ s) start parsed) natural))
        ])
]

-- A range that parseRange accepts starts below 2^63, and its end, offset + length, is at most 2^63.
pub parse_range-InRange : (header : Bytes) → InRange (parse_range header)
parse_range-InRange header = elim (Bool-cases (has_prefix header (codes "bytes="))) [
  | inl given ↦
      unfold parse_range in rw (given, parse_range) (with_parts-InRange (cut b'-' (drop 6 header)))
  | inr absent ↦ unfold parse_range in rw (absent, parse_range) tt
]

clamp_length_value :
    (total_size offset count : ℕ)
    → total_size < half
    → offset < total_size
    → offset + count < half
    → clamp_length total_size offset count ≡ (
        if not (ltb 0 count) || ltb total_size (offset + count) then total_size - offset else count)
unfolding clamp_length
clamp_length_value total_size offset count h inside k = rw (
  add64_small offset count (omega arith),
  lt64_small 0 count (omega arith) (omega arith),
  lt64_small total_size (offset + count) h k,
  sub64_small total_size offset (omega arith) (omega arith),
)

-- For a range that starts inside the blob and does not end at 2^63, the clamped length is not 0 and
-- stays within the blob: it is what was asked for, or what is left where that is less or no length
-- was given.
pub clamp_length_lem :
    (total_size offset count : ℕ)
    → total_size < half
    → offset < total_size
    → offset + count < half
    → (clamp_length total_size offset count
        ≡ (if (count == 0) || ltb total_size (offset + count) then total_size - offset else count))
      × (0 < clamp_length total_size offset count)
      × (offset + clamp_length total_size offset count ≤ total_size)
clamp_length_lem total_size offset count h inside k =
    ground (arith, clamp_length_value total_size offset count h inside k)

-- A range "bytes=START-9223372036854775807" with a positive start ends at 2^63, where the sum
-- wraps: the length is not clamped, and reaches past the end of the blob.
pub clamp_length_wraps :
    (total_size offset count : ℕ)
    → total_size < half
    → offset < total_size
    → 0 < offset
    → offset + count ≡ half
    → (clamp_length total_size offset count ≡ count) × (total_size < offset + count)
unfolding clamp_length lt64 add64
clamp_length_wraps total_size offset count h inside pos k = (ground arith, omega arith)
