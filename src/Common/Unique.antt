-- ===== src/Common/Unique.antt =====
-- Maps whose keys stand once: how removing a key and adding one at the end change them.
use mathlib.Core.Path.{◌≡◌, refl}
use mathlib.Core.Bool.{true, false}
use mathlib.Core.Option.{none, some}
use mathlib.Core.List.{[], ◌∷◌, ◌++◌}
use Prim.Native.Nat.{suc}
use native.Mathlib.Omega.{arith}
use ts_restic_server.Common.Tests.{if◌then◌else◌}
use ts_restic_server.Common.Lists.{length}
use ts_restic_server.Common.Text.{Bytes, eqs, eqs_iff}
use ts_restic_server.Common.Dict.{Dict, get, remove, has, IsUnique}

module _ {V : Type 0} where
  -- A key that is bound is one that the map has.
  pub has-get : (d : Dict V) (k : Bytes) → (has d k ≡ false) → get d k ≡ none
  unfolding get
  has-get [] k h = refl
  has-get ((j, v) ∷ d) k h = ground (arith, has-get d k)

  pub get-has : (d : Dict V) (k : Bytes) → get d k ≡ none → has d k ≡ false
  unfolding get
  get-has [] k h = refl
  get-has ((j, v) ∷ d) k h = ground (arith, get-has d k)

  pub remove_absent : (d : Dict V) (k : Bytes) → has d k ≡ false → remove d k ≡ d
  unfolding remove
  remove_absent [] k h = refl
  remove_absent ((j, v) ∷ d) k h = ground (arith, remove_absent d k)

  pub length-remove :
      (d : Dict V) (k : Bytes) (v : V)
      → IsUnique d
      → get d k ≡ some v
      → suc (length (remove d k)) ≡ length d
  unfolding get remove
  length-remove [] k v u h = cc
  length-remove ((j, w) ∷ d) k v (new, u) h =
      ground (arith, length-remove d k v u, remove_absent d k, eqs_iff j k)

  pub get-snoc :
      (d : Dict V) (k j : Bytes) (v : V)
      → has d k ≡ false
      → get (d ++ (k, v) ∷ []) j ≡ (if eqs k j then some v else get d j)
  unfolding get
  get-snoc [] k j v h = refl
  get-snoc ((i, w) ∷ d) k j v h =
      ground (arith, get-snoc d k j v, eqs_iff i j, eqs_iff i k, eqs_iff k j)

  pub has-snoc :
      (d : Dict V) (k j : Bytes) (v : V)
      → has (d ++ (k, v) ∷ []) j ≡ (if has d j then true else eqs k j)
  has-snoc [] k j v = ground arith
  has-snoc ((i, w) ∷ d) k j v = ground (arith, has-snoc d k j v)

  pub snoc-IsUnique :
      (d : Dict V) (k : Bytes) (v : V) → has d k ≡ false → IsUnique d → IsUnique (d ++ (k, v) ∷ [])
  snoc-IsUnique [] k v h u = (refl, tt)
  snoc-IsUnique ((i, w) ∷ d) k v h (new, u) =
      ground (arith, snoc-IsUnique d k v, has-snoc d k i v, eqs_iff i k, eqs_iff k i)
