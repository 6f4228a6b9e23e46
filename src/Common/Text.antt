-- ===== src/Common/Text.antt =====
-- Go strings as lists of bytes, and the functions of the package `strings` that the server calls.
use Prim.Native.Char.{code}
use Prim.Native.String.{String}
use Prim.Native.Nat.{ℕ, ◌+◌}
use mathlib.Core.Path.{◌≡◌, refl}
use mathlib.Core.Bool.{Bool, true, false, ◌&&◌, ◌||◌}
use mathlib.Core.Logic.{◌↔◌, inl, inr}
use mathlib.Core.Option.{Option, none, some}
use mathlib.Core.List.{List, [], ◌∷◌, ◌++◌}
use native.Mathlib.Omega.{arith}
use ts_restic_server.Common.Tests.{◌==◌, leb, if◌then◌else◌, Bool-cases, Option-cases}

abbrev pub Bytes : Type 0
Bytes = List ℕ

-- The bytes of an ASCII literal.
abbrev pub codes : String → Bytes
codes String.[] = []
codes (String.◌∷◌ c s) = code c ∷ codes s

-- s == t
unfoldable pub eqs : Bytes → Bytes → Bool
eqs [] [] = true
eqs [] (_ ∷ _) = false
eqs (_ ∷ _) [] = false
eqs (a ∷ s) (b ∷ t) = a == b && eqs s t

pub eqs_iff : (s t : Bytes) → (eqs s t ≡ true) ↔ (s ≡ t)
unfolding eqs
eqs_iff [] [] = (λ _. refl, λ _. refl)
eqs_iff [] (b ∷ t) = (λ h. cc, λ h. cc)
eqs_iff (a ∷ s) [] = (λ h. cc, λ h. cc)
eqs_iff (a ∷ s) (b ∷ t) = (λ h. ground (arith, eqs_iff s t), λ h. ground (arith, eqs_iff s t))

pub eqs_self : (s : Bytes) → eqs s s ≡ true
eqs_self s = (eqs_iff s s).1 refl

-- strings.HasPrefix(s, p)
unfoldable pub has_prefix : Bytes → Bytes → Bool
has_prefix s [] = true
has_prefix [] (_ ∷ _) = false
has_prefix (a ∷ s) (b ∷ p) = a == b && has_prefix s p

-- A successful prefix test splits the text.
pub has_prefix_split : (s p : Bytes) → has_prefix s p ≡ true → (r : Bytes) × (s ≡ p ++ r)
unfolding has_prefix
has_prefix_split s [] h = (s, refl)
has_prefix_split [] (b ∷ p) h = cc
has_prefix_split (a ∷ s) (b ∷ p) h =
    let (r, e) = has_prefix_split s p (ground arith) in (r, ground arith)

pub has_prefix-append : (p r : Bytes) → has_prefix (p ++ r) p ≡ true
unfolding has_prefix
has_prefix-append [] [] = refl
has_prefix-append [] (_ ∷ _) = refl
has_prefix-append (b ∷ p) r = ground (arith, has_prefix-append p r)

-- strings.CutSuffix(s, suffix), where s ends in it
unfoldable pub cut_suffix : Bytes → Bytes → Option Bytes
cut_suffix [] suffix = if eqs [] suffix then some [] else none
cut_suffix (a ∷ s) suffix =
    let rest = cut_suffix s suffix in
    if eqs (a ∷ s) suffix
    then some []
    else elim rest [ none ↦ none | some before ↦ some (a ∷ before) ]

pub cut_suffix-append :
    (s suffix before : Bytes) → cut_suffix s suffix ≡ some before → s ≡ before ++ suffix
unfolding cut_suffix
cut_suffix-append [] suffix before h = ground (arith, eqs_iff [] suffix)
cut_suffix-append (a ∷ s) suffix before h = elim (Bool-cases (eqs (a ∷ s) suffix)) [
  | inl same ↦ ground (arith, eqs_iff (a ∷ s) suffix)
  | inr other ↦ elim (Option-cases (cut_suffix s suffix)) [
    | inl none_left ↦ absurd (ground arith)
    | inr (r, found) ↦ ground (arith, cut_suffix-append s suffix r found)
  ]
]

-- strings.TrimLeft(s, c) and strings.TrimRight(s, c) for a cutset of one byte.
unfoldable pub trim_left : ℕ → Bytes → Bytes
trim_left c [] = []
trim_left c (a ∷ s) = if a == c then trim_left c s else a ∷ s

abbrev pub keep_unless : ℕ → ℕ → Bytes → Bytes
keep_unless c a [] = if a == c then [] else a ∷ []
keep_unless c a (b ∷ s) = a ∷ b ∷ s

unfoldable pub trim_right : ℕ → Bytes → Bytes
trim_right c [] = []
trim_right c (a ∷ s) = keep_unless c a (trim_right c s)

-- strings.HasSuffix(s, c) for one byte.
unfoldable pub ends_with : ℕ → Bytes → Bool
ends_with c [] = false
ends_with c (a ∷ []) = a == c
ends_with c (a ∷ b ∷ s) = ends_with c (b ∷ s)

-- strings.Contains(s, sub)
unfoldable pub contains : Bytes → Bytes → Bool
unfolding has_prefix
contains [] sub = has_prefix [] sub
contains (a ∷ s) sub = has_prefix (a ∷ s) sub || contains s sub

-- strings.Count(s, c) for one byte.
unfoldable pub count_byte : ℕ → Bytes → ℕ
count_byte c [] = 0
count_byte c (a ∷ s) = (if a == c then 1 else 0) + count_byte c s

-- strings.ToLower for ASCII text. Outside ASCII Go also lowers letters, of which U+212A and U+0130 give
-- the ASCII letters k and i: such text is not modelled.
abbrev pub lower_byte : ℕ → ℕ
lower_byte c = if leb b'A' c && leb c b'Z' then c + 32 else c

unfoldable pub to_lower : Bytes → Bytes
to_lower [] = []
to_lower (c ∷ s) = lower_byte c ∷ to_lower s

abbrev pub cons_head : ℕ → List Bytes → List Bytes
cons_head a [] = (a ∷ []) ∷ []
cons_head a (s ∷ ss) = (a ∷ s) ∷ ss

-- strings.Split(s, c) for a separator of one byte; never empty.
unfoldable pub split : ℕ → Bytes → List Bytes
split c [] = [] ∷ []
split c (a ∷ s) = let rest = split c s in if a == c then [] ∷ rest else cons_head a rest

-- strings.Join(ss, c)
unfoldable pub join : ℕ → List Bytes → Bytes
join c [] = []
join c (s ∷ []) = s
join c (s ∷ t ∷ ss) = s ++ c ∷ join c (t ∷ ss)

-- strings.Cut(s, c) for a separator of one byte, where c stands in s.
unfoldable pub cut : ℕ → Bytes → Option (Bytes × Bytes)
cut c [] = none
cut c (a ∷ s) =
    let rest = cut c s in
    if a == c then some ([], s) else elim rest [ none ↦ none | some (x, y) ↦ some (a ∷ x, y) ]

-- The ASCII white space of strings.TrimSpace.
abbrev pub is_space : ℕ → Bool
is_space c = c == 32 || (leb 9 c && leb c 13)

abbrev pub drop_spaces : Bytes → Bytes
drop_spaces [] = []
drop_spaces (c ∷ s) = let rest = drop_spaces s in if is_space c then rest else c ∷ s

abbrev pub unless_space : ℕ → Bytes → Bytes
unless_space c [] = if is_space c then [] else c ∷ []
unless_space c (d ∷ s) = c ∷ d ∷ s

abbrev pub drop_spaces_right : Bytes → Bytes
drop_spaces_right [] = []
drop_spaces_right (c ∷ s) = unless_space c (drop_spaces_right s)

-- strings.TrimSpace
unfoldable pub trim_space : Bytes → Bytes
trim_space s = drop_spaces_right (drop_spaces s)
