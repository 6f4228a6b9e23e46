-- ===== src/Common/Dict.antt =====
-- Go maps with string keys as association lists, with the laws that clients use. A map is iterated
-- over in an order that Go leaves open: clients prove what they need of a fold for every order.
use mathlib.Core.Path.{◌≡◌, refl}
use mathlib.Core.Bool.{Bool, true, false}
use mathlib.Core.Option.{Option, none, some}
use mathlib.Core.List.{List, [], ◌∷◌}
use Prim.Native.Nat.{ℕ, ◌+◌, ◌≤◌}
use native.Mathlib.Omega.{arith}
use ts_restic_server.Common.Tests.{if◌then◌else◌}
use ts_restic_server.Common.Text.{Bytes, eqs, eqs_iff}

abbrev pub Dict {ℓ} : Type ℓ → Type ℓ
Dict V = List (Bytes × V)

module _ {ℓ} {V : Type ℓ} where
  -- v, ok := m[k]
  unfoldable pub get : Dict V → Bytes → Option V
  unfolding eqs
  get [] k = none
  get ((j, v) ∷ d) k = if eqs j k then some v else get d k

  -- delete(m, k)
  unfoldable pub remove : Dict V → Bytes → Dict V
  unfolding eqs
  remove [] k = []
  remove ((j, v) ∷ d) k = let rest = remove d k in if eqs j k then rest else (j, v) ∷ rest

  -- m[k] = v
  unfoldable pub put : Dict V → Bytes → V → Dict V
  unfolding remove
  put d k v = (k, v) ∷ remove d k

module _ {ℓ} {V : Type ℓ} where
  pub get-remove :
      (d : Dict V) (k j : Bytes) → get (remove d k) j ≡ (if eqs k j then none else get d j)
  unfolding get remove
  get-remove [] k j = ground arith
  get-remove ((i, v) ∷ d) k j =
      ground (arith, get-remove d k j, eqs_iff i k, eqs_iff i j, eqs_iff k j)

  pub get-put :
      (d : Dict V) (k j : Bytes) (v : V) → get (put d k v) j ≡ (if eqs k j then some v else get d j)
  unfolding get put
  get-put d k j v = ground (arith, get-remove d k j, eqs_iff k j)

  -- k is a key of the map.
  abbrev pub has : Dict V → Bytes → Bool
  has [] k = false
  has ((j, v) ∷ d) k = if eqs j k then true else has d k

  -- No key stands twice, as in a Go map.
  abbrev pub IsUnique : Dict V → Type 0
  IsUnique [] = Unit
  IsUnique ((k, v) ∷ d) = (has d k ≡ false) × IsUnique d

  pub has-remove :
      (d : Dict V) (k j : Bytes) → has (remove d k) j ≡ (if eqs k j then false else has d j)
  unfolding remove
  has-remove [] k j = ground arith
  has-remove ((i, v) ∷ d) k j =
      ground (arith, has-remove d k j, eqs_iff i k, eqs_iff i j, eqs_iff k j)

  pub remove-IsUnique : (d : Dict V) (k : Bytes) → IsUnique d → IsUnique (remove d k)
  unfolding remove
  remove-IsUnique [] k h = tt
  remove-IsUnique ((i, v) ∷ d) k (new, h) = ground (arith, remove-IsUnique d k h, has-remove d k i)

  pub put-IsUnique : (d : Dict V) (k : Bytes) (v : V) → IsUnique d → IsUnique (put d k v)
  unfolding put
  put-IsUnique d k v h = ground (arith, remove-IsUnique d k h, has-remove d k k, eqs_iff k k)

  -- A sum over the values, in any order.
  abbrev pub total : (V → ℕ) → Dict V → ℕ
  total f [] = 0
  total f ((k, v) ∷ d) = f v + total f d

  abbrev pub size_of : (V → ℕ) → Option V → ℕ
  size_of f none = 0
  size_of f (some v) = f v

  pub remove_of_fresh : (d : Dict V) (k : Bytes) → has d k ≡ false → remove d k ≡ d
  unfolding remove
  remove_of_fresh [] k h = refl
  remove_of_fresh ((i, v) ∷ d) k h = ground (arith, remove_of_fresh d k)

  pub total-remove :
      (f : V → ℕ) (d : Dict V) (k : Bytes)
      → IsUnique d
      → total f (remove d k) + size_of f (get d k) ≡ total f d
  unfolding remove get
  total-remove f [] k h = refl
  total-remove f ((i, v) ∷ d) k (new, h) =
      ground (arith, total-remove f d k h, remove_of_fresh d k, eqs_iff i k)

  pub total-put :
      (f : V → ℕ) (d : Dict V) (k : Bytes) (v : V)
      → IsUnique d
      → total f (put d k v) + size_of f (get d k) ≡ total f d + f v
  unfolding put
  total-put f d k v h = ground (arith, total-remove f d k h)

  -- A property of every value.
  abbrev pub AllValues : (V → Type 0) → Dict V → Type 0
  AllValues P [] = Unit
  AllValues P ((k, v) ∷ d) = P v × AllValues P d

  pub remove-AllValues :
      (P : V → Type 0) (d : Dict V) (k : Bytes) → AllValues P d → AllValues P (remove d k)
  unfolding remove
  remove-AllValues P [] k h = tt
  remove-AllValues P ((i, v) ∷ d) k (p, h) = ground (arith, remove-AllValues P d k h)

  pub put-AllValues :
      (P : V → Type 0) (d : Dict V) (k : Bytes) (v : V)
      → P v
      → AllValues P d
      → AllValues P (put d k v)
  unfolding put
  put-AllValues P d k v p h = (p, remove-AllValues P d k h)

  -- No value is larger than the sum.
  pub size-le-total : (f : V → ℕ) (d : Dict V) (k : Bytes) → size_of f (get d k) ≤ total f d
  unfolding get
  size-le-total f [] k = omega arith
  size-le-total f ((i, v) ∷ d) k = ground (arith, size-le-total f d k)

  pub get-AllValues :
      (P : V → Type 0) (d : Dict V) (k : Bytes) {v : V} → AllValues P d → get d k ≡ some v → P v
  unfolding get
  get-AllValues P [] k h e = cc
  get-AllValues P ((i, w) ∷ d) k {v} (p, h) e = ground (arith, get-AllValues P d k {v = v} h)

pub ruleset dict_laws = (get-remove, get-put)
