-- ===== src/Prelude/Results.antt =====
-- A value or an error, as a Go function returns them.
use mathlib.Core.Path.{◌≡◌, refl, sym, ap, subst}
use mathlib.Core.Option.{Option, none, some}
use mathlib.Core.Bool.{Bool, true, false}
use mathlib.Core.Logic.{◌↔◌}
use mathlib.Core.List.{List, [], ◌∷◌}
use arazu.Prelude.Lists.{All}

pub data Result {ℓ} (E : Type 0) (A : Type ℓ) : Type ℓ where
  ok : A → Result E A
  err : E → Result E A

pub ok-injective {ℓ} : {E : Type 0} {A : Type ℓ} {a b : A} → Path (Result E A) (ok a) (ok b) → a ≡ b
ok-injective h = cc

-- A check: an error, or nothing.
abbrev pub Checks : Type 0 → Type 0
Checks E = Result E (Unit {0})

module _ {E : Type 0} where
  abbrev pub guard : Bool → E → Checks E
  guard true e = ok tt
  guard false e = err e

  unfoldable pub and_then : Checks E → Checks E → Checks E
  and_then (ok _) c = c
  and_then (err e) c = err e

  pub and_then_iff : (a b : Checks E) → (and_then a b ≡ ok tt) ↔ ((a ≡ ok tt) × (b ≡ ok tt))
  unfolding and_then
  and_then_iff (ok _) b = ((λ h. (refl, h)), (λ h. h.1))
  and_then_iff (err e) b = ((λ h. cc), (λ h. cc (h.0)))

  pub guard_iff : (b : Bool) (e : E) → (guard b e ≡ ok tt) ↔ (b ≡ true)
  guard_iff true e = ((λ h. refl), (λ h. refl))
  guard_iff false e = ((λ h. cc), (λ h. cc))

module _ {E A : Type 0} (f : A → Checks E) where
  -- A loop that returns at the first error.
  unfoldable pub each : List A → Checks E
  each [] = ok tt
  each (x ∷ xs) = let rest = each xs in and_then (f x) rest

  pub each_iff : (xs : List A) → (each xs ≡ ok tt) ↔ All (λ x. f x ≡ ok tt) xs
  unfolding each
  each_iff [] = ((λ h. tt), (λ h. refl))
  each_iff (x ∷ xs) = (
    (λ h. let (a, b) = (and_then_iff (f x) (each xs)).0 h in (a, (each_iff xs).0 b)),
    (λ h. (and_then_iff (f x) (each xs)).1 (h.0, (each_iff xs).1 h.1)),
  )

module _ {E A B : Type 0} where
  infixl 10 ◌>>=◌ ◌>>◌
  -- A call whose error ends the function with it.
  abbrev pub ◌>>=◌ : Result E A → (A → Result E B) → Result E B
  ◌>>=◌ (ok a) f = f a
  ◌>>=◌ (err e) f = err e

  abbrev pub ◌>>◌ : Result E A → Result E B → Result E B
  m >> n = m >>= λ _. n

  pub >>=_iff :
      (m : Result E A) (f : A → Result E B) {b : B}
      → (m >>= f ≡ ok b) ↔ ((a : A) × (m ≡ ok a) × (f a ≡ ok b))
  >>=_iff (ok a) f =
      ((λ h. (a, refl, h)), (λ (a', e, h). subst (λ x. f x ≡ ok _) (ok-injective (sym e)) h))
  >>=_iff (err e) f = ((λ h. cc), (λ h. cc (h.1)))

-- A look-up that is an error when there is nothing.
abbrev pub some_or : {E A : Type 0} → E → Option A → Result E A
some_or e none = err e
some_or e (some a) = ok a

pub some_or_iff :
    {E A : Type 0} (e : E) (o : Option A) {a : A} → (some_or e o ≡ ok a) ↔ (o ≡ some a)
some_or_iff e none = ((λ h. cc), (λ h. cc))
some_or_iff e (some a) = ((λ h. ap some (ok-injective h)), (λ h. cc))

-- fmt.Errorf("…: %w", err)
abbrev pub map_err : {E F A : Type 0} → (E → F) → Result E A → Result F A
map_err f (ok a) = ok a
map_err f (err e) = err (f e)

pub map_err_iff :
    {E F A : Type 0} (f : E → F) (r : Result E A) {a : A} → (map_err f r ≡ ok a) ↔ (r ≡ ok a)
map_err_iff f (ok a) = ((λ h. ap ok (ok-injective h)), (λ h. ap ok (ok-injective h)))
map_err_iff f (err e) = ((λ h. cc), (λ h. cc))

-- if !b { return err }, and the rest of the function.
pub guard->>_iff :
    {E A : Type 0} (b : Bool) (e : E) (r : Result E A) {a : A}
    → (guard b e >> r ≡ ok a) ↔ ((b ≡ true) × (r ≡ ok a))
guard->>_iff true e r = ((λ h. (refl, h)), (λ h. h.1))
guard->>_iff false e r = ((λ h. cc), (λ h. cc (h.0)))
