-- ===== src/Middleware/Identity/Order.antt =====
-- The list of the identity cache as a map from its keys.
use ts_restic_server.Common.{
  ℕ, ◌≡◌, refl, ◌≢◌, inl, inr, true, false, some, List, [], ◌∷◌, ◌++◌, arith, ◌==◌, length, All,
  Bool-cases, ap, sym,
}
use ts_restic_server.Common.Text.{Bytes, eqs, eqs_iff}
use ts_restic_server.Common.Dict.{Dict, get, remove, IsUnique}
use ts_restic_server.Middleware.Identity.{Element, remove_element}
use ts_restic_server.Common.Unique.{remove_absent}

module _ {A : Type 0} where
  -- The list as a map.
  abbrev pub by_key : List (Element A) → Dict (Element A)
  by_key [] = []
  by_key (e ∷ es) = (e.item.key, e) ∷ by_key es

  abbrev pub IsElsewhere : ℕ → List (Element A) → Type 0
  IsElsewhere address es = All (λ e. e.address ≢ address) es

  -- Each element has an address of its own.
  abbrev pub AreApart : List (Element A) → Type 0
  AreApart [] = Unit
  AreApart (e ∷ es) = IsElsewhere e.address es × AreApart es

  pub by_key-append : (es fs : List (Element A)) → by_key (es ++ fs) ≡ by_key es ++ by_key fs
  by_key-append [] fs = refl
  by_key-append (e ∷ es) fs = ap (λ d. (e.item.key, e) ∷ d) (by_key-append es fs)

  pub length-by_key : (es : List (Element A)) → length (by_key es) ≡ length es
  length-by_key [] = refl
  length-by_key (e ∷ es) = omega (arith, length-by_key es)

  pub remove_element_absent :
      (address : ℕ) (es : List (Element A))
      → IsElsewhere address es
      → remove_element address es ≡ es
  unfolding remove_element
  remove_element_absent address [] h = refl
  remove_element_absent address (e ∷ es) (n, h) = ground (arith, remove_element_absent address es h)

  -- What is kept of a list without an element.
  pub All-remove_element :
      (Q : Element A → Type 0) (address : ℕ) (es : List (Element A))
      → All Q es
      → All Q (remove_element address es)
  unfolding remove_element
  All-remove_element Q address [] h = tt
  All-remove_element Q address (e ∷ es) (q, h) = elim (Bool-cases (e.address == address)) [
    | inl here ↦ rw here (All-remove_element Q address es h)
    | inr other ↦ rw other (q, All-remove_element Q address es h)
  ]

  pub remove_element-AreApart :
      (address : ℕ) (es : List (Element A)) → AreApart es → AreApart (remove_element address es)
  unfolding remove_element
  remove_element-AreApart address [] h = tt
  remove_element-AreApart address (e ∷ es) (apart, h) = elim (Bool-cases (e.address == address)) [
    | inl here ↦ rw here (remove_element-AreApart address es h)
    | inr other ↦ rw other (
      All-remove_element (λ x. x.address ≢ e.address) address es apart,
      remove_element-AreApart address es h,
    )
  ]

  pub get-by_key-Elsewhere :
      (es : List (Element A)) (k : Bytes) (e : Element A) (address : ℕ)
      → IsElsewhere address es
      → get (by_key es) k ≡ some e
      → e.address ≢ address
  unfolding get
  get-by_key-Elsewhere [] k e address h found = cc
  get-by_key-Elsewhere (x ∷ es) k e address (n, h) found = elim (Bool-cases (eqs x.item.key k)) [
    | inl here ↦ let same : x ≡ e = cc (rw here at found) in rw (← same) n
    | inr other ↦ get-by_key-Elsewhere es k e address h (rw other at found)
  ]

  -- Removing the element of a key from the list is removing the key from the map.
  pub by_key-remove_element :
      (es : List (Element A)) (k : Bytes) (e : Element A)
      → AreApart es
      → IsUnique (by_key es)
      → get (by_key es) k ≡ some e
      → by_key (remove_element e.address es) ≡ remove (by_key es) k
  unfolding remove_element remove get
  by_key-remove_element [] k e h u found = refl
  by_key-remove_element (x ∷ es) k e (apart, h) (new, u) found =
      elim (Bool-cases (eqs x.item.key k)) [
        | inl here ↦
            let same : x ≡ e = cc (rw here at found) in
            let same_key = (eqs_iff x.item.key k).0 here in
            let kept = remove_element_absent e.address es (rw (← same) apart) in
            let head : (x.address == e.address) ≡ true = ground (arith, ap (λ y. y.address) same) in
            rw (here, head, kept) (sym (remove_absent (by_key es) k (rw (← same_key) new)))
        | inr other ↦
            let rest = rw other at found in
            let n = get-by_key-Elsewhere es k e x.address apart rest in
            let head : (x.address == e.address) ≡ false = ground (arith, n) in
            rw (other, head) (ap (λ d. (x.item.key, x) ∷ d) (by_key-remove_element es k e h u rest))
      ]
