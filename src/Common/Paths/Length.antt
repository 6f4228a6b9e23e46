-- ===== src/Common/Paths/Length.antt =====
-- path.Dir is shorter than the path, where it is not ".", "/" or the path itself.
use Prim.Native.Nat.{ℕ, suc, ◌+◌, ◌≤◌, ◌<◌}
use mathlib.Core.Path.{◌≡◌, refl, ap, ◌∙◌}
use mathlib.Core.Logic.{◌≢◌, ◌⊎◌, inl, inr}
use mathlib.Core.Bool.{Bool, true, false}
use mathlib.Core.List.{List, [], ◌∷◌, reverse, reverse_aux}
use native.Mathlib.Omega.{arith}
use ts_restic_server.Common.Tests.{◌==◌, if◌then◌else◌, Bool-cases}
use ts_restic_server.Common.Lists.{length, length-append}
use ts_restic_server.Common.Text.{Bytes, codes, eqs, eqs_iff, split, cons_head, join, ends_with}
use ts_restic_server.Common.Paths.{
  separator, step_up, clean_step, clean_elements, rebuild, clean, split_last, dir_of,
}

-- The length of the elements, each with its separator.
abbrev spaced : List Bytes → ℕ
spaced [] = 0
spaced (s ∷ ss) = (length s + 1) + spaced ss

-- The same of the elements that are not empty.
abbrev filled_one : Bytes → ℕ
filled_one s = if eqs s [] then 0 else length s + 1

abbrev filled : List Bytes → ℕ
filled [] = 0
filled (s ∷ ss) = filled_one s + filled ss

step_up-le : (rooted : Bool) (kept : List Bytes) → spaced (step_up rooted kept) ≤ spaced kept + 3
step_up-le true [] = omega arith
step_up-le false [] = omega arith
step_up-le rooted (s ∷ kept) = elim (Bool-cases (eqs s (codes ".."))) [
  | inl up ↦ rw up (omega arith)
  | inr name ↦ rw name (omega arith)
]

clean_step-le :
    (rooted : Bool) (kept : List Bytes) (s : Bytes)
    → spaced (clean_step rooted kept s) ≤ spaced kept + filled_one s
clean_step-le rooted kept s = elim (Bool-cases (eqs s [])) [
  | inl empty ↦ rw (empty, clean_step, filled_one) (omega arith)
  | inr full ↦ elim (Bool-cases (eqs s (codes "."))) [
    | inl here ↦ rw (full, here, clean_step, filled_one) (omega arith)
    | inr other ↦ elim (Bool-cases (eqs s (codes ".."))) [
      | inl up ↦
          rw (full, other, up, clean_step, filled_one)
            (rw ((eqs_iff s (codes "..")).0 up) (step_up-le rooted kept))
      | inr name ↦ rw (full, other, name, clean_step, filled_one) (omega arith)
    ]
  ]
]

clean_elements-le :
    (rooted : Bool) (kept ss : List Bytes)
    → spaced (clean_elements rooted kept ss) ≤ spaced kept + filled ss
unfolding clean_elements
clean_elements-le rooted kept [] = omega arith
clean_elements-le rooted kept (s ∷ ss) =
    omega
      (arith, clean_elements-le rooted (clean_step rooted kept s) ss, clean_step-le rooted kept s)

spaced-reverse_aux : (ss ts : List Bytes) → spaced (reverse_aux ss ts) ≡ spaced ss + spaced ts
spaced-reverse_aux [] ts = omega arith
spaced-reverse_aux (s ∷ ss) ts = omega (arith, spaced-reverse_aux ss (s ∷ ts))

spaced-reverse : (ss : List Bytes) → spaced (reverse ss) ≡ spaced ss
spaced-reverse ss = omega (arith, spaced-reverse_aux ss [])

length-join_cons :
    (s : Bytes) (ss : List Bytes) → suc (length (join separator (s ∷ ss))) ≡ spaced (s ∷ ss)
unfolding join
length-join_cons s [] = omega arith
length-join_cons s (t ∷ ss) =
    omega (arith, length-append s (separator ∷ join separator (t ∷ ss)), length-join_cons t ss)

-- What the parts of a split text add up to; `closed` says whether the text ends with the separator.
abbrev IsBounded : ℕ → Bool → List Bytes → Type 0
IsBounded n closed [] = ⊥
IsBounded n true (h ∷ t) = filled t + length h + 1 ≤ n
IsBounded n false (h ∷ t) = filled t + length h ≤ n

cons_head-IsBounded :
    (n a : ℕ) (closed : Bool) (parts : List Bytes)
    → IsBounded n closed parts
    → IsBounded (suc n) closed (cons_head a parts)
cons_head-IsBounded n a closed [] k = elim k [ ]
cons_head-IsBounded n a true (h ∷ t) k = omega (arith, k)
cons_head-IsBounded n a false (h ∷ t) k = omega (arith, k)

cut-IsBounded :
    (n : ℕ) (closed : Bool) (parts : List Bytes)
    → IsBounded n closed parts
    → IsBounded (suc n) closed ([] ∷ parts)
cut-IsBounded n closed [] k = elim k [ ]
cut-IsBounded n true (h ∷ t) k = ground (arith, k)
cut-IsBounded n false (h ∷ t) k = ground (arith, k)

split-IsBounded : (p : Bytes) → IsBounded (length p) (ends_with separator p) (split separator p)
unfolding split ends_with eqs
split-IsBounded [] = omega arith
split-IsBounded (a ∷ []) = elim (Bool-cases (a == separator)) [
  | inl here ↦ rw here (omega arith)
  | inr other ↦ rw other (omega arith)
]
split-IsBounded (a ∷ b ∷ p) = elim (Bool-cases (a == separator)) [
  | inl here ↦ rw here (
      cut-IsBounded (length (b ∷ p)) (ends_with separator (b ∷ p)) (split separator (b ∷ p))
        (split-IsBounded (b ∷ p)))
  | inr other ↦ rw other (
      cons_head-IsBounded (length (b ∷ p)) a (ends_with separator (b ∷ p)) (split separator (b ∷ p))
        (split-IsBounded (b ∷ p)))
]

length-join : (ss : List Bytes) → 0 < spaced ss → suc (length (join separator ss)) ≡ spaced ss
length-join [] h = absurd (omega (arith, h))
length-join (s ∷ ss) h = length-join_cons s ss

filled-split : (p : Bytes) → ends_with separator p ≡ true → filled (split separator p) ≤ length p
filled-split p closed = go (split separator p) (rw closed at (split-IsBounded p))
  where
    go : (parts : List Bytes) → IsBounded (length p) true parts → filled parts ≤ length p
    go [] h = elim h [ ]
    go (h ∷ t) k = ground (arith, k)

-- A path that is rebuilt from elements, unless there are none.
length-rebuild :
    (s : Bytes) (kept : List Bytes)
    → (length (rebuild true (s ∷ kept)) ≡ spaced (s ∷ kept))
      × (suc (length (rebuild false (s ∷ kept))) ≡ spaced (s ∷ kept))
length-rebuild s kept =
    let same = spaced-reverse (s ∷ kept) in
    let joined = length-join (reverse (s ∷ kept)) (omega (arith, same)) in
    (omega (arith, joined, same), omega (arith, joined, same))

rebuild_rooted-lt :
    (kept : List Bytes) (n : ℕ)
    → spaced kept ≤ n
    → rebuild true kept ≢ codes "/"
    → length (rebuild true kept) ≤ n
unfolding join
rebuild_rooted-lt [] n h not_root = absurd (not_root refl)
rebuild_rooted-lt (s ∷ kept) n h not_root = omega (arith, h, (length-rebuild s kept).0)

rebuild-lt :
    (kept : List Bytes) (n : ℕ)
    → spaced kept ≤ n
    → rebuild false kept ≢ codes "."
    → length (rebuild false kept) < n
rebuild-lt [] n h not_here = absurd (not_here refl)
rebuild-lt (s ∷ kept) n h not_here = omega (arith, h, (length-rebuild s kept).1)

clean_rooted :
    (c : ℕ) (rest : Bytes)
    → (c == separator) ≡ true
    → clean (c ∷ rest) ≡ rebuild true (clean_elements true [] (split separator rest))
unfolding clean split clean_elements eqs
clean_rooted c rest rooted = rw rooted

clean_relative :
    (c : ℕ) (rest : Bytes)
    → (c == separator) ≡ false
    → clean (c ∷ rest) ≡ rebuild false (clean_elements false [] (split separator (c ∷ rest)))
unfolding clean
clean_relative c rest relative = rw relative

filled-split_tail :
    (c : ℕ) (rest : Bytes)
    → ends_with separator (c ∷ rest) ≡ true
    → filled (split separator rest) ≤ length rest
unfolding ends_with
filled-split_tail c [] closed = unfold split eqs in omega arith
filled-split_tail c (b ∷ rest) closed = filled-split (b ∷ rest) closed

-- A text that ends with "/" is cleaned to a shorter one, to "." or to "/".
clean-lt :
    (d : Bytes)
    → ends_with separator d ≡ true
    → clean d ≢ codes "."
    → clean d ≢ codes "/"
    → length (clean d) < length d
clean-lt [] closed not_here not_root = unfold ends_with in cc
clean-lt (c ∷ rest) closed not_here not_root = elim (Bool-cases (c == separator)) [
  | inl rooted ↦
      let same = clean_rooted c rest rooted in
      let kept = clean_elements true [] (split separator rest) in
      let few : spaced kept ≤ length rest = omega (
        arith,
        clean_elements-le true [] (split separator rest),
        filled-split_tail c rest closed,
      ) in
      let short : length (rebuild true kept) ≤ length rest =
        rebuild_rooted-lt kept (length rest) few (λ e. not_root (same ∙ e)) in
      omega (arith, short, ap length same)
  | inr relative ↦
      let same = clean_relative c rest relative in
      let parts = split separator (c ∷ rest) in
      let kept = clean_elements false [] parts in
      let few : spaced kept ≤ length (c ∷ rest) =
        omega (arith, clean_elements-le false [] parts, filled-split (c ∷ rest) closed) in
      let short : length (rebuild false kept) < length (c ∷ rest) =
        rebuild-lt kept (length (c ∷ rest)) few (λ e. not_here (same ∙ e)) in
      omega (arith, short, ap length same)
]

-- What split_last puts before the last element is empty or ends with "/", and is no longer than the
-- path.
abbrev IsDir : Bytes → Bytes × Bytes → Type 0
IsDir p parts =
    ((parts.0 ≡ []) ⊎ (ends_with separator parts.0 ≡ true)) × (length parts.0 ≤ length p)

split_last-IsDir : (p : Bytes) → IsDir p (split_last p)
unfolding split_last
split_last-IsDir [] = (inl refl, omega arith)
split_last-IsDir (c ∷ p) = go (split_last p).0 (split_last p).1 (split_last-IsDir p)
  where
    go :
        (dir file : Bytes)
        → IsDir p (dir, file)
        → IsDir (c ∷ p) (elim dir [
          | [] ↦ if c == separator then (c ∷ [], file) else ([], c ∷ file)
          | d ∷ ds ↦ (c ∷ d ∷ ds, file)
        ])
    go [] file h = elim (Bool-cases (c == separator)) [
      | inl here ↦ rw here (inr (unfold ends_with in here), omega arith)
      | inr other ↦ rw other (inl refl, omega arith)
    ]
    go (d ∷ ds) file (inl e, k) = cc
    go (d ∷ ds) file (inr e, k) = (inr (unfold ends_with in e), omega (arith, k))

-- path.Dir of a path, unless it is "." or "/", is shorter than the path.
pub dir_of-lt :
    (p : Bytes) → dir_of p ≢ codes "." → dir_of p ≢ codes "/" → length (dir_of p) < length p
unfolding dir_of
dir_of-lt p not_here not_root =
    let (shape, short) = split_last-IsDir p in
    elim shape [
      | inl empty ↦ absurd (not_here (ap clean empty ∙ clean_empty))
      | inr closed ↦ omega (arith, short, clean-lt (split_last p).0 closed not_here not_root)
    ]
  where
    clean_empty : clean [] ≡ codes "."
    clean_empty = unfold clean clean_elements split eqs in refl
