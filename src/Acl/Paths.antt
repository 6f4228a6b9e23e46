-- ===== src/Acl/Paths.antt =====
-- Path matching of internal/acl/acl.go: a rule path matches on segment boundaries only.
use ts_restic_server.Common.{
  ℕ, zero, suc, ◌+◌, ◌≡◌, refl, ◌≢◌, Bool, true, false, ◌&&◌, ◌||◌, none, some, List, [], ◌∷◌, ◌++◌,
  arith, if◌then◌else◌, length, All,
}
use ts_restic_server.Common.Text.{Bytes, codes, eqs, has_prefix, trim_right, count_byte}
use ts_restic_server.Acl.{slash, normalize_path, segment_count, match_path}

-- A byte string with no "/".
abbrev pub NoSlash : Bytes → Type 0
NoSlash s = All (λ c. c ≢ slash) s

-- A path segment: not empty, and with no "/".
abbrev pub IsSegment : Bytes → Type 0
IsSegment s = (s ≢ []) × NoSlash s

-- Each segment behind a "/".
abbrev pub body : List Bytes → Bytes
body [] = []
body (s ∷ ss) = slash ∷ (s ++ body ss)

-- The path with the given segments, "/" for none.
abbrev pub path_of : List Bytes → Bytes
path_of [] = codes "/"
path_of (s ∷ ss) = body (s ∷ ss)

abbrev pub is_prefix : List Bytes → List Bytes → Bool
is_prefix [] qs = true
is_prefix (r ∷ rs) [] = false
is_prefix (r ∷ rs) (q ∷ qs) = eqs r q && is_prefix rs qs

-- The two tests of `matchPath`: the same path, or one below it.
under : Bytes → Bytes → Bool
unfolding eqs has_prefix
under r q = eqs q r || has_prefix q (r ++ codes "/")

-- A text that is empty or begins with "/".
abbrev IsTail : Bytes → Type 0
IsTail [] = Unit
IsTail (c ∷ s) = c ≡ slash

under_segment :
    (r q a b : Bytes)
    → NoSlash r
    → NoSlash q
    → IsTail a
    → IsTail b
    → under (r ++ a) (q ++ b) ≡ (eqs r q && under a b)
unfolding under
under_segment [] [] a b hr hq ha hb = refl
under_segment [] (d ∷ q) [] b hr hq ha hb = ground arith
under_segment [] (d ∷ q) (c ∷ a) b hr hq ha hb = ground arith
under_segment (c ∷ r) [] a [] hr hq ha hb = ground arith
under_segment (c ∷ r) [] a (d ∷ b) hr hq ha hb = ground arith
under_segment (c ∷ r) (d ∷ q) a b (hc, hr) (hd, hq) ha hb =
    ground (arith, under_segment r q a b hr hq ha hb)

body-IsTail : (ss : List Bytes) → IsTail (body ss)
body-IsTail [] = tt
body-IsTail (s ∷ ss) = refl

has_prefix-nil : (s : Bytes) → has_prefix s [] ≡ true
unfolding has_prefix
has_prefix-nil [] = refl
has_prefix-nil (c ∷ s) = refl

under-body :
    (rs qs : List Bytes)
    → All IsSegment rs
    → All IsSegment qs
    → under (body rs) (body qs) ≡ is_prefix rs qs
unfolding under
under-body [] [] hr hq = refl
under-body [] (q ∷ qs) hr hq = has_prefix-nil (q ++ body qs)
under-body (r ∷ rs) [] hr hq = refl
under-body (r ∷ rs) (q ∷ qs) ((nr, sr), hr) ((nq, sq), hq) =
    rw (under_segment r q (body rs) (body qs) sr sq (body-IsTail rs) (body-IsTail qs))
      (rw (under-body rs qs hr hq))

-- The number of segments of a body.
count_byte-append : (c : ℕ) (s t : Bytes) → count_byte c (s ++ t) ≡ count_byte c s + count_byte c t
unfolding count_byte
count_byte-append c [] t = omega arith
count_byte-append c (a ∷ s) t = ground (arith, count_byte-append c s t)

count_byte-NoSlash : (s : Bytes) → NoSlash s → count_byte slash s ≡ 0
unfolding count_byte
count_byte-NoSlash [] h = refl
count_byte-NoSlash (c ∷ s) (p, h) = ground (arith, count_byte-NoSlash s h)

count_byte-body : (ss : List Bytes) → All IsSegment ss → count_byte slash (body ss) ≡ length ss
unfolding count_byte
count_byte-body [] h = refl
count_byte-body (s ∷ ss) ((_, p), h) =
    ground
      (arith, count_byte-append slash s (body ss), count_byte-NoSlash s p, count_byte-body ss h)

-- `trim_right` leaves a text alone that ends in another byte, which `s` does if it is a segment.
trim_right-segment :
    (s t : Bytes) → s ≢ [] → NoSlash s → trim_right slash t ≡ t → trim_right slash (s ++ t) ≡ s ++ t
unfolding trim_right
trim_right-segment [] t n h e = absurd (n refl)
trim_right-segment (c ∷ []) [] n (p, h) e = ground arith
trim_right-segment (c ∷ []) (d ∷ t) n (p, h) e = rw e
trim_right-segment (c ∷ d ∷ s) t n (p, h) e = rw (trim_right-segment (d ∷ s) t (λ x. cc) h e)

trim_right-body : (ss : List Bytes) → All IsSegment ss → trim_right slash (body ss) ≡ body ss
unfolding trim_right
trim_right-body [] h = refl
trim_right-body ((c ∷ s) ∷ ss) ((n, p), h) =
    rw (trim_right-segment (c ∷ s) (body ss) n p (trim_right-body ss h))
trim_right-body ([] ∷ ss) ((n, p), h) = absurd (n refl)

segment_count-body :
    (s : Bytes) (ss : List Bytes)
    → IsSegment s
    → All IsSegment ss
    → segment_count (body (s ∷ ss)) ≡ length (s ∷ ss)
unfolding segment_count
segment_count-body [] ss (n, p) h = absurd (n refl)
segment_count-body (c ∷ s) ss (n, p) h = ground (
  arith,
  trim_right-segment (c ∷ s) (body ss) n p (trim_right-body ss h),
  count_byte-append slash (c ∷ s) (body ss),
  count_byte-NoSlash (c ∷ s) p,
  count_byte-body ss h,
)

-- A path with a segment is not "/".
body-ne-root : (s : Bytes) (ss : List Bytes) → IsSegment s → eqs (body (s ∷ ss)) (codes "/") ≡ false
unfolding eqs
body-ne-root [] ss (n, p) = absurd (n refl)
body-ne-root (c ∷ s) ss h = refl

under-root : (s : Bytes) (ss : List Bytes) → IsSegment s → under (body (s ∷ ss)) (codes "/") ≡ false
unfolding under
under-root [] ss (n, p) = absurd (n refl)
under-root (c ∷ s) ss h = refl

-- Below the root the tests of `matchPath` are those of `under`.
match_path_by_under :
    (r : Bytes) (q : Bytes)
    → eqs r (codes "/") ≡ false
    → match_path r q ≡ (if under r q then some (segment_count r) else none)
unfolding match_path under
match_path_by_under r q h = ground arith

-- On paths made of segments `matchPath` is the prefix test on segments, and the depth is the
-- number of segments of the rule path: "/a" matches "/a" and "/a/b", not "/ab".
pub match_path-path_of :
    (rs qs : List Bytes)
    → All IsSegment rs
    → All IsSegment qs
    → match_path (path_of rs) (path_of qs) ≡ (if is_prefix rs qs then some (length rs) else none)
match_path-path_of [] qs hr hq = unfold match_path eqs in refl
match_path-path_of (r ∷ rs) [] (hr, hrs) hq =
    rw (match_path_by_under _ _ (body-ne-root r rs hr), under-root r rs hr)
match_path-path_of (r ∷ rs) (q ∷ qs) (hr, hrs) hq = rw (
  match_path_by_under _ _ (body-ne-root r rs hr),
  under-body (r ∷ rs) (q ∷ qs) (hr, hrs) hq,
  segment_count-body r rs hr hrs,
)

-- A path made of segments is already normal.
pub normalize_path-path_of :
    (ss : List Bytes) → All IsSegment ss → normalize_path (path_of ss) ≡ path_of ss
unfolding normalize_path
normalize_path-path_of [] h = refl
normalize_path-path_of ((c ∷ s) ∷ ss) h =
    ground (arith, trim_right-body ((c ∷ s) ∷ ss) h, has_prefix-nil (c ∷ (s ++ body ss)))
normalize_path-path_of ([] ∷ ss) ((n, p), h) = absurd (n refl)

abbrev pub slashes : ℕ → Bytes
slashes zero = []
slashes (suc n) = slash ∷ slashes n

trim_right-slashes : (n : ℕ) → trim_right slash (slashes n) ≡ []
unfolding trim_right
trim_right-slashes zero = refl
trim_right-slashes (suc n) = rw (trim_right-slashes n)

-- A path of two or more slashes and nothing else is normalized to the empty text, not to "/".
pub normalize_path-slashes : (n : ℕ) → normalize_path (slash ∷ slash ∷ slashes n) ≡ []
unfolding normalize_path
normalize_path-slashes n = ground (arith, trim_right-slashes n)
