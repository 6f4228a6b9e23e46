-- ===== src/Rclone/Numbers.antt =====
-- The numbers in the range header of internal/storage/rclone/rclone.go: strconv.ParseInt reads what
-- fmt writes.
use ts_restic_server.Common.{
  ℕ, zero, suc, ◌+◌, ◌-◌, ◌*◌, ◌/◌, ◌%◌, ◌≤◌, ◌<◌, ◌≡◌, refl, ◌≢◌, false, ◌&&◌, ltb, leb, some, [],
  ◌∷◌, ◌++◌, All, All-append, arith, Bool-cases, inl, inr, ◌∙◌,
}
use ts_restic_server.Common.Int64.{half, lt64, lt64_small}
use ts_restic_server.Common.Text.{Bytes, cut}
use ts_restic_server.Api.Range.{decimal, parse_int}
use ts_restic_server.Rclone.{digits_within, format_int}

abbrev pub IsDigit : ℕ → Type 0
IsDigit c = (48 ≤ c) × (c ≤ 57)

-- The number has at most that many digits.
abbrev pub Fits : ℕ → ℕ → Type 0
Fits zero n = n ≡ 0
Fits (suc k) n = Fits k (n / 10)

decimal-snoc :
    (a m c : ℕ) (s : Bytes)
    → decimal a s ≡ some m
    → IsDigit c
    → decimal a (s ++ c ∷ []) ≡ some (m * 10 + (c - 48))
unfolding decimal
decimal-snoc a m c [] h (low, high) = ground (arith, h, low, high)
decimal-snoc a m c (d ∷ s) h digit = elim (Bool-cases (leb 48 d && leb d 57)) [
  | inl good ↦ rw good (decimal-snoc (a * 10 + (d - 48)) m c s (rw good at h) digit)
  | inr bad ↦ absurd (cc (rw bad at h))
]

pub digits_within-IsDigit : (k n : ℕ) → All IsDigit (digits_within k n)
unfolding digits_within
digits_within-IsDigit zero n = tt
digits_within-IsDigit (suc k) n = elim (Bool-cases (ltb n 10)) [
  | inl small ↦ rw small ((omega arith, ground arith), tt)
  | inr large ↦ rw large (
      All-append IsDigit (digits_within k (n / 10)) ((48 + n % 10) ∷ [])
        (digits_within-IsDigit k (n / 10)) ((omega arith, omega arith), tt))
]

pub decimal-digits_within : (k n : ℕ) → Fits k n → decimal 0 (digits_within k n) ≡ some n
unfolding digits_within decimal
decimal-digits_within zero n h = rw h refl
decimal-digits_within (suc k) n h = elim (Bool-cases (ltb n 10)) [
  | inl small ↦ ground (arith, small)
  | inr large ↦
      rw
        (
          large,
          decimal-snoc 0 (n / 10) (48 + n % 10) (digits_within k (n / 10))
              (decimal-digits_within k (n / 10) h) (omega arith, omega arith),
        )
        (ground arith)
]

snoc_not_empty : (c : ℕ) (s : Bytes) → s ++ c ∷ [] ≢ []
snoc_not_empty c [] e = cc
snoc_not_empty c (d ∷ s) e = cc

digits_within_not_empty : (k n : ℕ) → digits_within (suc k) n ≢ []
unfolding digits_within
digits_within_not_empty k n e = elim (Bool-cases (ltb n 10)) [
  | inl small ↦ cc (rw small at e)
  | inr large ↦ snoc_not_empty (48 + n % 10) (digits_within k (n / 10)) (rw large at e)
]

int64-Fits : (n : ℕ) → n < half → Fits 20 n
int64-Fits n h = omega arith

-- What %d writes of a number that is not negative: digits, at least one, that ParseInt reads.
pub record IsWritten (n : ℕ) : Type 0 where
  pub first : ℕ
  pub others : Bytes
  pub written : format_int n ≡ first ∷ others
  pub digit : IsDigit first
  pub digits : All IsDigit others
  pub parsed : parse_int (first ∷ others) ≡ some n

parse_int-digits :
    (n c : ℕ) (s : Bytes)
    → n < half
    → IsDigit c
    → decimal 0 (c ∷ s) ≡ some n
    → parse_int (c ∷ s) ≡ some n
unfolding parse_int
parse_int-digits n c s h (low, high) e = ground (arith, e, low, high, h)

pub lt64_natural : (n : ℕ) → n < half → lt64 n 0 ≡ false
lt64_natural n h = lt64_small n 0 h (omega arith) ∙ ground arith

pub format_int-IsWritten : (n : ℕ) → n < half → IsWritten n
format_int-IsWritten n h =
    go (digits_within 20 n) (rw (lt64_natural n h) refl) (digits_within_not_empty 19 n)
      (digits_within-IsDigit 20 n) (decimal-digits_within 20 n (int64-Fits n h))
  where
    go :
        (s : Bytes) → format_int n ≡ s → s ≢ [] → All IsDigit s → decimal 0 s ≡ some n → IsWritten n
    go [] e full h' d = absurd (full refl)
    go (c ∷ s) e full (digit, digits) d = record {
      first = c;
      others = s;
      written = e;
      digit = digit;
      digits = digits;
      parsed = parse_int-digits n c s h digit d;
    }

-- Digits end at the first "-" behind them.
pub cut-digits : (s t : Bytes) → All IsDigit s → cut b'-' (s ++ b'-' ∷ t) ≡ some (s, t)
unfolding cut
cut-digits [] t h = refl
cut-digits (c ∷ s) t ((low, high), h) = ground (arith, low, cut-digits s t h)
