-- ===== src/Remote/Ending.antt =====
-- mkdirAll of internal/storage/nfs/nfs.go ends: a parent is shorter than its path.
use ts_restic_server.Common.{
  ℕ, zero, suc, ◌≤◌, ◌<◌, ◌≡◌, refl, inl, inr, Bool, true, ◌&&◌, not, [], ◌∷◌, arith, length, ◌∙◌,
  if◌then◌else◌, Bool-cases, ap,
}
use ts_restic_server.Common.Text.{Bytes, codes, eqs, eqs_iff}
use ts_restic_server.Common.Paths.{dir_of}
use ts_restic_server.Common.Paths.Length.{dir_of-lt}
use ts_restic_server.Files.{Files, Answer, done, failed, Info}
use ts_restic_server.Files.Program.{Program, return, continue}
use ts_restic_server.Remote.Nfs.{is_top, make_one, unless_exists, mkdir_all_within, mkdir_all}

abbrev goes_up : Bytes → Bool
goes_up dir =
    not (eqs (dir_of dir) dir)
    && not (eqs (dir_of dir) (codes "."))
    && not (eqs (dir_of dir) (codes "/"))

shorter : (dir : Bytes) → goes_up dir ≡ true → length (dir_of dir) < length dir
shorter dir up =
    dir_of-lt dir (λ e. ground (arith, (eqs_iff (dir_of dir) (codes ".")).1 e))
      (λ e. ground (arith, (eqs_iff (dir_of dir) (codes "/")).1 e))

module _ {S : Type 0} (f : Files S) where
  unless_exists-eq :
      (dir : Bytes) (m k : Program S (Unit {0})) (a : Answer Info) (s : S)
      → (goes_up dir ≡ true → m s ≡ k s)
      → unless_exists f dir m a s ≡ unless_exists f dir k a s
  unless_exists-eq dir m k (done info) s h = refl
  unless_exists-eq dir m k (failed e) s h = elim (Bool-cases (goes_up dir)) [
    | inl up ↦
        rw (up, unless_exists) (ap (λ run. continue (λ _. make_one f dir) run.0 run.1 run.2) (h up))
    | inr top ↦ rw (top, unless_exists)
  ]

  within-eq :
      (n m : ℕ) (dir : Bytes) (s : S)
      → length dir ≤ n
      → length dir ≤ m
      → mkdir_all_within f n dir s ≡ mkdir_all_within f m dir s
  unfolding mkdir_all_within eqs
  within-eq zero zero dir s h k = refl
  within-eq zero (suc m) [] s h k = refl
  within-eq (suc n) zero [] s h k = refl
  within-eq zero (suc m) (c ∷ dir) s h k = absurd (omega (arith, h))
  within-eq (suc n) zero (c ∷ dir) s h k = absurd (omega (arith, k))
  within-eq (suc n) (suc m) dir s h k = elim (Bool-cases (is_top dir)) [
    | inl top ↦ rw top
    | inr below ↦ rw below (
        unless_exists-eq dir (mkdir_all_within f n (dir_of dir)) (mkdir_all_within f m (dir_of dir))
          (f.stat dir s) s
          (λ up.
            let less = shorter dir up in
            within-eq n m (dir_of dir) s (omega (arith, less, h)) (omega (arith, less, k))))
  ]

  recursion :
      (dir : Bytes) (s : S)
      → mkdir_all_within f (suc (length dir)) dir s ≡ (
          if is_top dir
          then return tt s
          else unless_exists f dir (mkdir_all f (dir_of dir)) (f.stat dir s) s)
  unfolding mkdir_all_within
  recursion dir s = elim (Bool-cases (is_top dir)) [
    | inl top ↦ rw top refl
    | inr below ↦ rw below (
        unless_exists-eq dir (mkdir_all_within f (length dir) (dir_of dir))
          (mkdir_all f (dir_of dir)) (f.stat dir s) s
          (λ up.
            within-eq (length dir) (length (dir_of dir)) (dir_of dir) s
              (omega (arith, shorter dir up)) (omega arith)))
  ]

  -- With any bound that is not below the length of the path, mkdirAll does what its recursive
  -- definition says, in which the directories above are made by mkdirAll itself, without a bound: it
  -- ends, and it never fails because of the bound.
  pub mkdir_all_within_lem :
      (n : ℕ) (dir : Bytes) (s : S)
      → length dir ≤ n
      → mkdir_all_within f n dir s ≡ (
          if is_top dir
          then return tt s
          else unless_exists f dir (mkdir_all f (dir_of dir)) (f.stat dir s) s)
  mkdir_all_within_lem n dir s h =
      within-eq n (suc (length dir)) dir s h (omega arith) ∙ recursion dir s
