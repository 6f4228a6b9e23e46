-- ===== src/Common/Fallible.antt =====
-- Steps that fail with an error of a type E: an error or a value, chained in do blocks.
use mathlib.Core.Path.{◌≡◌, refl}
use mathlib.Core.Logic.{◌⊎◌, inl, inr}
use mathlib.Core.Bool.{Bool, true, false}
use mathlib.Core.Option.{Option, none, some}
use mathlib.Core.List.{List, [], ◌∷◌}

infixl 5 ◌>>=◌ ◌>>◌
abbrev pub ◌>>=◌ : {E A B : Type 0} → E ⊎ A → (A → E ⊎ B) → E ⊎ B
inl e >>= f = inl e
inr a >>= f = f a

abbrev pub ◌>>◌ : {E A B : Type 0} → E ⊎ A → E ⊎ B → E ⊎ B
m >> n = m >>= λ _. n

abbrev pub return : {E A : Type 0} → A → E ⊎ A
return a = inr a

-- the error of a test that must not hold
abbrev pub fail_if : {E : Type 0} → Bool → E → E ⊎ Unit {0}
fail_if true e = inl e
fail_if false e = inr tt

abbrev pub or_fail : {E A : Type 0} → Option A → E → E ⊎ A
or_fail none e = inl e
or_fail (some a) e = inr a

-- the error of a check that answers with one
abbrev pub check : {E F : Type 0} → Option F → (F → E) → E ⊎ Unit {0}
check none wrap = inr tt
check (some f) wrap = inl (wrap f)

-- an error inside another one
abbrev pub wrapped : {E F A : Type 0} → (F → E) → F ⊎ A → E ⊎ A
wrapped wrap (inl f) = inl (wrap f)
wrapped wrap (inr a) = inr a

-- each element of a list, until one fails
abbrev pub each : {E A B : Type 0} → (A → E ⊎ B) → List A → E ⊎ List B
each f [] = inr []
each f (x ∷ xs) = let rest = each f xs in f x >>= λ y. rest >>= λ ys. inr (y ∷ ys)

-- What a chain that succeeds has of its steps.
pub bind-eq-inr :
    {E A B : Type 0} (m : E ⊎ A) (f : A → E ⊎ B) (b : B)
    → (m >>= f) ≡ inr b
    → (a : A) × (m ≡ inr a) × (f a ≡ inr b)
bind-eq-inr (inl e) f b h = absurd (cc)
bind-eq-inr (inr a) f b h = (a, refl, h)

pub or_fail-eq-inr :
    {E A : Type 0} (o : Option A) (e : E) (a : A) → or_fail o e ≡ inr a → o ≡ some a
or_fail-eq-inr none e a h = absurd (cc)
or_fail-eq-inr (some b) e a h = cc

pub check-eq-inr :
    {E F : Type 0} (o : Option F) (wrap : F → E) (u : Unit {0}) → check o wrap ≡ inr u → o ≡ none
check-eq-inr none wrap u h = refl
check-eq-inr (some f) wrap u h = absurd (cc)

pub wrapped-eq-inr :
    {E F A : Type 0} (wrap : F → E) (m : F ⊎ A) (a : A) → wrapped wrap m ≡ inr a → m ≡ inr a
wrapped-eq-inr wrap (inl f) a h = absurd (cc)
wrapped-eq-inr wrap (inr b) a h = cc

pub fail_if-eq-inr :
    {E : Type 0} (test : Bool) (e : E) (u : Unit {0}) → fail_if test e ≡ inr u → test ≡ false
fail_if-eq-inr true e u h = absurd (cc)
fail_if-eq-inr false e u h = refl

pub inr-injective : {E A : Type 0} (a b : A) → return {E = E} a ≡ return b → a ≡ b
inr-injective a b h = cc

-- The same, for what follows from the steps.
pub bind-then :
    {E A B P : Type 0} (m : E ⊎ A) (f : A → E ⊎ B) (b : B)
    → (m >>= f) ≡ inr b
    → ((a : A) → m ≡ inr a → f a ≡ inr b → P)
    → P
bind-then (inl e) f b h then_P = absurd (cc)
bind-then (inr a) f b h then_P = then_P a refl h

-- What holds of both outcomes of a step holds of a chain.
pub bind-either :
    {E A B : Type 0} (P : E ⊎ B → Type 0) (m : E ⊎ A) (f : A → E ⊎ B)
    → ((e : E) → m ≡ inl e → P (inl e))
    → ((a : A) → m ≡ inr a → P (f a))
    → P (m >>= f)
bind-either P (inl e) f bad good = bad e refl
bind-either P (inr a) f bad good = good a refl

pub fail_if-eq-inl : {E : Type 0} (test : Bool) (e e' : E) → fail_if test e ≡ inl e' → e ≡ e'
fail_if-eq-inl true e e' h = cc
fail_if-eq-inl false e e' h = absurd (cc)

pub wrapped-eq-inl :
    {E F A : Type 0} (wrap : F → E) (m : F ⊎ A) (e : E)
    → wrapped wrap m ≡ inl e
    → (f : F) × (wrap f ≡ e)
wrapped-eq-inl wrap (inl f) e h = (f, cc)
wrapped-eq-inl wrap (inr a) e h = absurd (cc)

pub or_fail-not-inl :
    {E A P : Type 0} (o : Option A) (a : A) (e e' : E) → o ≡ some a → or_fail o e ≡ inl e' → P
or_fail-not-inl none a e e' is h = absurd (cc)
or_fail-not-inl (some b) a e e' is h = absurd (cc)

pub wrapped-not-inl :
    {E F A P : Type 0} (wrap : F → E) (m : F ⊎ A) (a : A) (e : E)
    → m ≡ inr a
    → wrapped wrap m ≡ inl e
    → P
wrapped-not-inl wrap (inl f) a e is h = absurd (cc)
wrapped-not-inl wrap (inr b) a e is h = absurd (cc)
