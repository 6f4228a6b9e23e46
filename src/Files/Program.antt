-- ===== src/Files/Program.antt =====
-- Programs of file system calls: a program returns the states after each of its calls, so that what
-- holds between two calls, as after a crash, can be stated, then its result and its last state.
use ts_restic_server.Common.{◌≡◌, refl, List, [], ◌∷◌, ◌++◌, All, All-append}
use ts_restic_server.Storage.{Error, Result, ok, err, panic, other}
use ts_restic_server.Files.{Answer, done, failed}

abbrev pub Program : Type 0 → Type 0 → Type 0
Program S A = S → List S × Result A × S

abbrev pub to_result : {A : Type 0} → Answer A → Result A
to_result (done a) = ok a
to_result (failed e) = err other

module _ {S : Type 0} where
  abbrev pub return : {A : Type 0} → A → Program S A
  return a s = ([], ok a, s)

  abbrev pub fail : {A : Type 0} → Error → Program S A
  fail e s = ([], err e, s)

  -- A call of which the error is looked at.
  abbrev pub attempt : {A : Type 0} → (S → Answer A × S) → Program S (Answer A)
  attempt f s = ((f s).1 ∷ [], ok (f s).0, (f s).1)

  -- A call whose error is returned, as itself or in another one.
  abbrev pub call : {A : Type 0} → (S → Answer A × S) → Program S A
  call f s = ((f s).1 ∷ [], to_result (f s).0, (f s).1)

  -- A call that only reads.
  abbrev pub look : {A : Type 0} → (S → A) → Program S A
  look f s = ([], ok (f s), s)

  abbrev pub continue :
      {A B : Type 0} → (A → Program S B) → List S → Result A → S → List S × Result B × S
  continue k trace (ok a) s = let (later, r, s') = k a s in (trace ++ later, r, s')
  continue k trace (err e) s = (trace, err e, s)
  continue k trace panic s = (trace, panic, s)

  infixl 5 ◌>>=◌ ◌>>◌
  abbrev pub ◌>>=◌ : {A B : Type 0} → Program S A → (A → Program S B) → Program S B
  ◌>>=◌ m k s = let (trace, r, s') = m s in continue k trace r s'

  abbrev pub ◌>>◌ : {A B : Type 0} → Program S A → Program S B → Program S B
  m >> k = m >>= λ _. k

  abbrev pub after_error :
      {A : Type 0} → Program S (Unit {0}) → List S → Result A → S → List S × Result A × S
  after_error clean trace (ok a) s = (trace, ok a, s)
  after_error clean trace (err e) s = let (later, _, s') = clean s in (trace ++ later, err e, s')
  after_error clean trace panic s = (trace, panic, s)

  -- `m`, and after an error of it the calls of `clean`, whose results nobody looks at.
  abbrev pub or_clean : {A : Type 0} → Program S A → Program S (Unit {0}) → Program S A
  or_clean m clean s = let (trace, r, s') = m s in after_error clean trace r s'

  abbrev pub outcome : {A : Type 0} → Program S A → S → Result A
  outcome m s = (m s).1

  abbrev pub final : {A : Type 0} → Program S A → S → S
  final m s = (m s).2

  -- `P`, where it holds at the start, holds after each call.
  abbrev pub Keeps : (S → Type 0) → {A : Type 0} → Program S A → Type 0
  Keeps P m = (s : S) → P s → All P (m s).0 × P (m s).2

  pub Keeps-bind :
      {A B : Type 0} (P : S → Type 0) (m : Program S A) (k : A → Program S B)
      → Keeps P m
      → ((a : A) → Keeps P (k a))
      → Keeps P (m >>= k)
  Keeps-bind {A = A} P m k h hk s p = go (m s).0 (m s).1 (m s).2 (h s p)
    where
      go :
          (trace : List S) (r : Result A) (s' : S)
          → All P trace × P s'
          → All P (continue k trace r s').0 × P (continue k trace r s').2
      go trace (ok a) s' (past, now) =
          (All-append P trace (k a s').0 past (hk a s' now).0, (hk a s' now).1)
      go trace (err e) s' h = h
      go trace panic s' h = h

  pub Keeps-or_clean :
      {A : Type 0} (P : S → Type 0) (m : Program S A) (clean : Program S (Unit {0}))
      → Keeps P m
      → Keeps P clean
      → Keeps P (or_clean m clean)
  Keeps-or_clean {A = A} P m clean h hc s p = go (m s).0 (m s).1 (m s).2 (h s p)
    where
      go :
          (trace : List S) (r : Result A) (s' : S)
          → All P trace × P s'
          → All P (after_error clean trace r s').0 × P (after_error clean trace r s').2
      go trace (ok a) s' h = h
      go trace (err e) s' (past, now) =
          (All-append P trace (clean s').0 past (hc s' now).0, (hc s' now).1)
      go trace panic s' h = h

  pub Keeps-attempt :
      {A : Type 0} (P : S → Type 0) (f : S → Answer A × S)
      → ((s : S) → P s → P (f s).1)
      → Keeps P (attempt f)
  Keeps-attempt P f h s p = ((h s p, tt), h s p)

  pub Keeps-call :
      {A : Type 0} (P : S → Type 0) (f : S → Answer A × S)
      → ((s : S) → P s → P (f s).1)
      → Keeps P (call f)
  Keeps-call P f h s p = ((h s p, tt), h s p)

  -- A program without calls.
  pub Keeps-return : {A : Type 0} (P : S → Type 0) (r : Result A) → Keeps P (λ s. ([], r, s))
  Keeps-return P r s p = (tt, p)

  -- A sequence succeeds only if both parts do, and ends where its second part ends.
  pub >>=-eq-ok :
      {A B : Type 0} (m : Program S A) (k : A → Program S B) (s : S) (b : B)
      → outcome (m >>= k) s ≡ ok b
      → (a : A) × (outcome m s ≡ ok a)
        × (outcome (k a) (final m s) ≡ ok b)
        × (final (m >>= k) s ≡ final (k a) (final m s))
  >>=-eq-ok {A = A} {B = B} m k s b e = go (m s).0 (m s).1 (m s).2 e
    where
      go :
          (trace : List S) (r : Result A) (s' : S)
          → (continue k trace r s').1 ≡ ok b
          → (a : A) × (r ≡ ok a)
            × (outcome (k a) s' ≡ ok b)
            × ((continue k trace r s').2 ≡ final (k a) s')
      go trace (ok a) s' e = (a, refl, e, refl)
      go trace (err e') s' e = cc
      go trace panic s' e = cc

  pub or_clean-eq-ok :
      {A : Type 0} (m : Program S A) (clean : Program S (Unit {0})) (s : S) (a : A)
      → outcome (or_clean m clean) s ≡ ok a
      → (outcome m s ≡ ok a) × (final (or_clean m clean) s ≡ final m s)
  or_clean-eq-ok {A = A} m clean s a e = go (m s).0 (m s).1 (m s).2 e
    where
      go :
          (trace : List S) (r : Result A) (s' : S)
          → (after_error clean trace r s').1 ≡ ok a
          → (r ≡ ok a) × ((after_error clean trace r s').2 ≡ s')
      go trace (ok x) s' e = (e, refl)
      go trace (err e') s' e = cc
      go trace panic s' e = cc

  pub call-eq-ok :
      {A : Type 0} (f : S → Answer A × S) (s : S) (a : A)
      → outcome (call f) s ≡ ok a
      → (f s).0 ≡ done a
  call-eq-ok {A = A} f s a e = go (f s).0 e
    where
      go : (x : Answer A) → to_result x ≡ ok a → x ≡ done a
      go (done x) e = cc
      go (failed x) e = cc
