-- ===== src/Filesystem/Atomic.antt =====
-- atomicWrite of internal/storage/filesystem/filesystem.go: what the files hold during and after it.
use ts_restic_server.Common.{
  ◌≡◌, refl, ◌≢◌, ◌⊎◌, inl, inr, Option, none, some, List, [], ◌∷◌, ◌++◌, All, All-append,
  Bool-cases, if◌then◌else◌, subst, sym, ◌∙◌,
}
use ts_restic_server.Common.Text.{Bytes, eqs, eqs_iff}
use ts_restic_server.Common.Paths.{dir_of}
use ts_restic_server.Storage.{Result, ok, err, panic, other, Reader}
use ts_restic_server.Files.{Files, Answer, done, failed, CallError}
use ts_restic_server.Files.Program.{
  Program, return, attempt, call, to_result, continue, ◌>>=◌, ◌>>◌, or_clean, after_error, outcome,
  final, Keeps, Keeps-bind, Keeps-or_clean, Keeps-call, >>=-eq-ok, or_clean-eq-ok, call-eq-ok,
}
use ts_restic_server.Files.Laws.{IsLawful}
use ts_restic_server.Filesystem.Writes.{discard, write_to, atomic_write}

Answer-cases :
    {A : Type 0} (a : Answer A) → ((x : A) × (a ≡ done x)) ⊎ ((e : CallError) × (a ≡ failed e))
Answer-cases (done x) = inl (x, refl)
Answer-cases (failed e) = inr (e, refl)

module _ {S : Type 0} (f : Files S) (content : S → Bytes → Option Bytes)
    (L : IsLawful f content) where
  -- The file at `q` holds `c`.
  abbrev pub Holds : Bytes → Bytes → S → Type 0
  Holds q c s = content s q ≡ some c

  -- The file at `q` holds `c`, or it is the one that is written, and holds the whole body.
  abbrev pub OldOrNew : Bytes → Reader → Bytes → Bytes → S → Type 0
  OldOrNew path body q c s = Holds q c s ⊎ ((q ≡ path) × Holds path body.content s)

  discard-Keeps : (t q c : Bytes) → q ≢ t → Keeps (Holds q c) (discard f t)
  discard-Keeps t q c n s h =
      let closed : Holds q c (f.close t s).1 = L.content-close s t q ∙ h in
      let gone : Holds q c (f.remove t (f.close t s).1).1 =
        L.content-remove (f.close t s).1 t q n ∙ closed in
      ((closed, (gone, tt)), gone)

  -- The temporary file is written, flushed and closed.
  abbrev stage : Reader → Bytes → Program S (Unit {0})
  stage body t = do call (f.write t body); call (f.sync t); call (f.close t)

  stage-Keeps : (body : Reader) (t q c : Bytes) → q ≢ t → Keeps (Holds q c) (stage body t)
  stage-Keeps body t q c n =
      Keeps-bind (Holds q c) (call (f.write t body)) (λ _. call (f.sync t) >> call (f.close t))
        (Keeps-call (Holds q c) (f.write t body) (λ s h. L.content-write s t q body n ∙ h))
        (λ _.
          Keeps-bind (Holds q c) (call (f.sync t)) (λ _. call (f.close t))
            (Keeps-call (Holds q c) (f.sync t) (λ s h. L.content-sync s t q ∙ h))
            (λ _. Keeps-call (Holds q c) (f.close t) (λ s h. L.content-close s t q ∙ h)))

  -- Where all three calls succeed, the temporary file holds the body.
  stage_ok :
      (body : Reader) (t : Bytes) (s : S)
      → outcome (or_clean (stage body t) (discard f t)) s ≡ ok tt
      → content (final (or_clean (stage body t) (discard f t)) s) t ≡ some body.content
  stage_ok body t s e =
      let (passed, same) = or_clean-eq-ok (stage body t) (discard f t) s tt e in
      let (_, written, rest, end) =
        >>=-eq-ok (call (f.write t body)) (λ _. call (f.sync t) >> call (f.close t)) s tt passed in
      let (_, synced, closed, end') =
        >>=-eq-ok (call (f.sync t)) (λ _. call (f.close t)) (f.write t body s).1 tt rest in
      rw (same, end, end')
        (L.content-close _ t t
          ∙ L.content-sync _ t t
          ∙ (L.write_done s t body (call-eq-ok (f.write t body) s tt written)).1)

  -- Renames the temporary file, and removes it where that fails.
  abbrev publish : Bytes → Bytes → Program S (Unit {0})
  publish path t = or_clean (call (f.rename t path)) (do attempt (f.remove t); return tt)

  -- What a run that writes to `path` leaves of a file that holds `c`: at each moment all of it or,
  -- where it is the file at `path`, the whole body; the body exactly if the run succeeds.
  abbrev pub IsAtomic : Bytes → Reader → Bytes → Bytes → List S × Result (Unit {0}) × S → Type 0
  IsAtomic path body q c run =
      All (OldOrNew path body q c) run.0
      × OldOrNew path body q c run.2
      × (run.1 ≡ ok tt → q ≡ path → Holds path body.content run.2)
      × (run.1 ≡ ok tt → q ≢ path → Holds q c run.2)
      × (run.1 ≢ ok tt → Holds q c run.2)

  Holds-OldOrNew :
      (path : Bytes) (body : Reader) (q c : Bytes) (trace : List S)
      → All (Holds q c) trace
      → All (OldOrNew path body q c) trace
  Holds-OldOrNew path body q c [] h = tt
  Holds-OldOrNew path body q c (s ∷ trace) (p, h) = (inl p, Holds-OldOrNew path body q c trace h)

  -- A run that has failed without touching the file.
  unchanged-IsAtomic :
      (path : Bytes) (body : Reader) (q c : Bytes) (trace : List S) (r : Result (Unit {0})) (s : S)
      → All (Holds q c) trace
      → Holds q c s
      → r ≢ ok tt
      → IsAtomic path body q c (trace, r, s)
  unchanged-IsAtomic path body q c trace r s past now wrong = (
    Holds-OldOrNew path body q c trace past,
    inl now,
    λ e. absurd (wrong e),
    λ e. absurd (wrong e),
    λ _. now,
  )

  publish-IsAtomic :
      (path : Bytes) (body : Reader) (t q c : Bytes) (s : S)
      → Holds t body.content s
      → Holds q c s
      → q ≢ t
      → IsAtomic path body q c (publish path t s)
  publish-IsAtomic path body t q c s staged held n = go (f.rename t path s).0 refl
    where
      s' : S
      s' = (f.rename t path s).1

      go :
          (a : Answer (Unit {0}))
          → (f.rename t path s).0 ≡ a
          → IsAtomic path body q c
              (after_error (do attempt (f.remove t); return tt) (s' ∷ []) (to_result a) s')
      go (done tt) e =
          let new : Holds path body.content s' = L.rename_done s t path e ∙ staged in
          elim (Bool-cases (eqs q path)) [
            | inl same ↦
                let here : q ≡ path = (eqs_iff q path).0 same in
                (
                  (inr (here, new), tt),
                  inr (here, new),
                  λ _ _. new,
                  λ _ other. absurd (other here),
                  λ wrong. absurd (wrong refl),
                )
            | inr differs ↦
                let other : q ≢ path = λ here. cc (differs, (eqs_iff q path).1 here) in
                let old : Holds q c s' = L.content-rename s t path q n other ∙ held in
                (
                  (inl old, tt),
                  inl old,
                  λ _ here. absurd (other here),
                  λ _ _. old,
                  λ wrong. absurd (wrong refl),
                )
          ]
      go (failed x) e =
          let old : Holds q c s' = L.rename_failed s t path q x e ∙ held in
          let gone : Holds q c (f.remove t s').1 = L.content-remove s' t q n ∙ old in
          unchanged-IsAtomic path body q c (s' ∷ (f.remove t s').1 ∷ []) (err other)
            (f.remove t s').1 (old, (gone, tt)) gone (λ e. cc)

  -- What a program did before leaves of a run that goes on atomically.
  after-IsAtomic :
      (path : Bytes) (body : Reader) (q c : Bytes) (trace : List S)
      (run : List S × Result (Unit {0}) × S)
      → All (Holds q c) trace
      → IsAtomic path body q c run
      → IsAtomic path body q c (trace ++ run.0, run.1, run.2)
  after-IsAtomic path body q c trace run past (later, last, new, others, old) = (
    All-append (OldOrNew path body q c) trace run.0 (Holds-OldOrNew path body q c trace past) later,
    last,
    new,
    others,
    old,
  )

  -- A program that keeps the file, and goes on atomically where it succeeds.
  pub bind-IsAtomic :
      {A : Type 0} (path : Bytes) (body : Reader) (q c : Bytes) (m : Program S A)
      (k : A → Program S (Unit {0})) (s : S)
      → All (Holds q c) (m s).0 × Holds q c (m s).2
      → ((a : A) → outcome m s ≡ ok a → IsAtomic path body q c (k a (final m s)))
      → IsAtomic path body q c ((m >>= k) s)
  bind-IsAtomic {A = A} path body q c m k s (past, now) h = go (m s).1 refl
    where
      go : (r : Result A) → (m s).1 ≡ r → IsAtomic path body q c (continue k (m s).0 r (m s).2)
      go (ok a) e = after-IsAtomic path body q c (m s).0 (k a (m s).2) past (h a e)
      go (err x) e = unchanged-IsAtomic path body q c (m s).0 (err x) (m s).2 past now (λ e. cc)
      go panic e = unchanged-IsAtomic path body q c (m s).0 panic (m s).2 past now (λ e. cc)

  write_to-IsAtomic :
      (path : Bytes) (body : Reader) (t q c : Bytes) (s : S)
      → q ≢ t
      → Holds q c s
      → IsAtomic path body q c (write_to f path body t s)
  write_to-IsAtomic path body t q c s n held =
      let m = or_clean (stage body t) (discard f t) in
      let kept =
        Keeps-or_clean (Holds q c) (stage body t) (discard f t) (stage-Keeps body t q c n)
          (discard-Keeps t q c n) s held in
      bind-IsAtomic path body q c m (λ _. publish path t) s kept
        (λ u e. publish-IsAtomic path body t q c (final m s) (stage_ok body t s e) kept.1 n)

  pub atomic_write-IsAtomic :
      (path : Bytes) (body : Reader) (q c : Bytes) (s : S)
      → content s q ≡ some c
      → IsAtomic path body q c (atomic_write f path body s)
  unfolding atomic_write
  atomic_write-IsAtomic path body q c s held =
      let there : content s q ≢ none = λ e. cc (e, held) in
      let kept : Holds q c (f.create_temp (dir_of path) s).1 =
        L.content-create_temp s (dir_of path) q there ∙ held in
      bind-IsAtomic path body q c (call (f.create_temp (dir_of path))) (write_to f path body) s
        ((kept, tt), kept)
        (λ t e.
          write_to-IsAtomic path body t q c _
            (λ same. there (
              subst (λ x. content s x ≡ none) (sym same)
                (L.create_temp_fresh s (dir_of path) t
                  (call-eq-ok (f.create_temp (dir_of path)) s t e))))
            kept)

  -- An atomicWrite without error has written the whole body to its path, also where no file stood.
  pub atomic_write_ok :
      (path : Bytes) (body : Reader) (s : S)
      → outcome (atomic_write f path body) s ≡ ok tt
      → content (final (atomic_write f path body) s) path ≡ some body.content
  unfolding atomic_write
  atomic_write_ok path body s e =
      let (t, created, rest, end) =
        >>=-eq-ok (call (f.create_temp (dir_of path))) (write_to f path body) s tt e in
      let s' : S = (f.create_temp (dir_of path) s).1 in
      let (_, staged, published, end') =
        >>=-eq-ok (or_clean (stage body t) (discard f t)) (λ _. publish path t) s' tt rest in
      let s'' : S = final (or_clean (stage body t) (discard f t)) s' in
      let (renamed, end'') =
        or_clean-eq-ok (call (f.rename t path)) (do attempt (f.remove t); return tt) s'' tt
          published in
      rw (end, end', end'')
        (L.rename_done s'' t path (call-eq-ok (f.rename t path) s'' tt renamed)
          ∙ stage_ok body t s' staged)

  -- What a file that stood before, or none, is between two calls, and after the run.
  abbrev pub IsBetween : Bytes → Reader → Bytes → Option Bytes → S → Type 0
  IsBetween path body q none s = Unit
  IsBetween path body q (some c) s = OldOrNew path body q c s

  abbrev pub StillHolds : Bytes → Option Bytes → S → Type 0
  StillHolds q none s = Unit
  StillHolds q (some c) s = Holds q c s

  -- What a run says of its result and of the file at `q`, which was `old` before.
  abbrev pub AtomicEffect :
      Bytes → Reader → Bytes → Option Bytes → List S × Result (Unit {0}) × S → Type 0
  AtomicEffect path body q old run =
      All (IsBetween path body q old) run.0
      × (((run.1 ≡ ok tt)
            × Holds path body.content run.2
            × StillHolds q (if eqs q path then some body.content else old) run.2)
          ⊎ ((run.1 ≢ ok tt) × StillHolds q old run.2))

  nothing-IsBetween :
      (path : Bytes) (body : Reader) (q : Bytes) (trace : List S)
      → All (IsBetween path body q none) trace
  nothing-IsBetween path body q [] = tt
  nothing-IsBetween path body q (u ∷ trace) = (tt, nothing-IsBetween path body q trace)

  written-StillHolds :
      (path : Bytes) (body : Reader) (q : Bytes) (old : Option Bytes) (s : S)
      → Holds path body.content s
      → (q ≢ path → StillHolds q old s)
      → StillHolds q (if eqs q path then some body.content else old) s
  written-StillHolds path body q old s new others = elim (Bool-cases (eqs q path)) [
    | inl same ↦ rw same (rw (← ((eqs_iff q path).0 same)) at new)
    | inr differs ↦ rw differs (others (λ here. cc (differs, (eqs_iff q path).1 here)))
  ]

  IsAtomic-effect :
      (path : Bytes) (body : Reader) (q c : Bytes) (trace : List S) (r : Result (Unit {0})) (s : S)
      → (r ≡ ok tt → Holds path body.content s)
      → IsAtomic path body q c (trace, r, s)
      → AtomicEffect path body q (some c) (trace, r, s)
  IsAtomic-effect path body q c trace (ok tt) s new (past, _, _, others, _) = (
    past,
    inl (refl, new refl, written-StillHolds path body q (some c) s (new refl) (others refl)),
  )
  IsAtomic-effect path body q c trace (err e) s new (past, _, _, _, old) =
      (past, inr (λ e. cc, old (λ e. cc)))
  IsAtomic-effect path body q c trace panic s new (past, _, _, _, old) =
      (past, inr (λ e. cc, old (λ e. cc)))

  nothing-effect :
      (path : Bytes) (body : Reader) (q : Bytes) (trace : List S) (r : Result (Unit {0})) (s : S)
      → (r ≡ ok tt → Holds path body.content s)
      → AtomicEffect path body q none (trace, r, s)
  nothing-effect path body q trace (ok tt) s new = (
    nothing-IsBetween path body q trace,
    inl (refl, new refl, written-StillHolds path body q none s (new refl) (λ _. tt)),
  )
  nothing-effect path body q trace (err e) s new =
      (nothing-IsBetween path body q trace, inr (λ e. cc, tt))
  nothing-effect path body q trace panic s new =
      (nothing-IsBetween path body q trace, inr (λ e. cc, tt))

  -- Whatever call of atomicWrite fails: a run without error has written the whole body to its path,
  -- also where no file stood, and has left every other file that stood as it was; a run with an error
  -- has left every file that stood as it was; and at every moment between the calls a file that stood
  -- before holds what it held or, if it is the one written to, the whole body and no part of it.
  pub atomic_write_lem :
      (path : Bytes) (body : Reader) (q : Bytes) (s : S)
      → AtomicEffect path body q (content s q) (atomic_write f path body s)
  atomic_write_lem path body q s = from_old (content s q) refl
    where
      from_old :
          (old : Option Bytes)
          → content s q ≡ old
          → AtomicEffect path body q old (atomic_write f path body s)
      from_old none absent =
          let run = atomic_write f path body s in
          nothing-effect path body q run.0 run.1 run.2 (atomic_write_ok path body s)
      from_old (some c) held =
          let run = atomic_write f path body s in
          IsAtomic-effect path body q c run.0 run.1 run.2 (atomic_write_ok path body s)
            (atomic_write-IsAtomic path body q c s held)
