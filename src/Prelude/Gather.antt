-- ===== src/Prelude/Gather.antt =====
-- A loop over items that skips some, refuses at the first bad one, and gathers what it took. Each
-- turn knows the number of the item and what was taken before it, newest first.
use Prim.Native.Nat.{ℕ, suc}
use mathlib.Core.Path.{◌≡◌, refl, sym, ap, subst}
use mathlib.Core.Logic.{◌↔◌, ◌⊎◌, inl, inr}
use mathlib.Core.Option.{Option, none, some}
use mathlib.Core.List.{List, [], ◌∷◌}
use arazu.Prelude.Results.{Result, ok, err, ok-injective}

module _ {E A : Type 0} where
  -- A turn that takes what `a` is puts it before what the rest of the loop takes.
  abbrev taken : A → Result E (List A) → Result E (List A)
  taken a (ok ts) = ok (a ∷ ts)
  taken a (err e) = err e

  abbrev after_turn :
      List A → Result E (Option A) → (List A → Result E (List A)) → Result E (List A)
  after_turn seen (ok none) rest = rest seen
  after_turn seen (ok (some a)) rest = taken a (rest (a ∷ seen))
  after_turn seen (err e) rest = err e

  taken-ok :
      (a : A) (r : Result E (List A)) {ts : List A}
      → taken a r ≡ ok ts
      → (rest : List A) × (ts ≡ a ∷ rest) × (r ≡ ok rest)
  taken-ok a (ok rest) h = (rest, sym (ok-injective h), refl)
  taken-ok a (err e) h = cc

-- A turn that takes what a call returns.
abbrev pub taking : {E A : Type 0} → Result E A → Result E (Option A)
taking (ok a) = ok (some a)
taking (err e) = err e

pub taking-some_iff :
    {E A : Type 0} (r : Result E A) (a : A) → (taking r ≡ ok (some a)) ↔ (r ≡ ok a)
taking-some_iff (ok b) a = ((λ h. cc), (λ h. cc))
taking-some_iff (err e) a = ((λ h. cc), (λ h. cc))

pub taking-takes : {E A : Type 0} (r : Result E A) → taking r ≡ ok none → ⊥
taking-takes (ok b) h = cc
taking-takes (err e) h = cc

module _ {A : Type 0} where
  -- What was taken is fresh against what was taken before it.
  abbrev pub FreshFrom : (List A → A → Type 0) → List A → List A → Type 0
  FreshFrom Fresh seen [] = Unit {0}
  FreshFrom Fresh seen (a ∷ ts) = Fresh seen a × FreshFrom Fresh (a ∷ seen) ts

module _ {I A : Type 0} where
  -- The items, one by one, are skipped or matched with what was taken, in their order.
  abbrev pub Matched : (I → Type 0) → (I → A → Type 0) → List I → List A → Type 0
  Matched Skip Take [] ts = ts ≡ []
  Matched Skip Take (x ∷ xs) ts =
      (Skip x × Matched Skip Take xs ts)
      ⊎ ((a : A) × (rest : List A) × (ts ≡ a ∷ rest) × Take x a × Matched Skip Take xs rest)

-- Items and results, one by one.
module _ {I A : Type 0} (R : I → A → Type 0) where
  abbrev pub Pairs : List I → List A → Type 0
  Pairs [] [] = Unit {0}
  Pairs [] (a ∷ ts) = ⊥
  Pairs (x ∷ xs) [] = ⊥
  Pairs (x ∷ xs) (a ∷ ts) = R x a × Pairs xs ts

  Matched-Pairs : (xs : List I) (ts : List A) → Matched (λ _. ⊥) R xs ts → Pairs xs ts
  Matched-Pairs [] ts h = subst (λ l. Pairs [] l) (sym h) tt
  Matched-Pairs (x ∷ xs) ts (inl (f, _)) = absurd f
  Matched-Pairs (x ∷ xs) ts (inr (a, rest, e, r, m)) =
      subst (λ l. Pairs (x ∷ xs) l) (sym e) (r, Matched-Pairs xs rest m)

  Pairs-Matched : (xs : List I) (ts : List A) → Pairs xs ts → Matched (λ _. ⊥) R xs ts
  Pairs-Matched [] [] h = refl
  Pairs-Matched [] (a ∷ ts) h = absurd h
  Pairs-Matched (x ∷ xs) [] h = absurd h
  Pairs-Matched (x ∷ xs) (a ∷ ts) (r, h) = inr (a, ts, refl, r, Pairs-Matched xs ts h)

  -- A loop that skips nothing has one result for each item.
  pub Matched-Pairs_iff : (xs : List I) (ts : List A) → Matched (λ _. ⊥) R xs ts ↔ Pairs xs ts
  Matched-Pairs_iff xs ts = (Matched-Pairs xs ts, Pairs-Matched xs ts)

pub Pairs-weaken :
    {I A : Type 0} {P Q : I → A → Type 0} (xs : List I) (ts : List A)
    → ((x : I) (a : A) → P x a → Q x a)
    → Pairs P xs ts
    → Pairs Q xs ts
Pairs-weaken [] [] f h = tt
Pairs-weaken [] (a ∷ ts) f h = h
Pairs-weaken (x ∷ xs) [] f h = h
Pairs-weaken (x ∷ xs) (a ∷ ts) f (p, h) = (f x a p, Pairs-weaken xs ts f h)

module _ {E I A : Type 0} where
  unfoldable pub gather :
      (ℕ → List A → I → Result E (Option A)) → ℕ → List A → List I → Result E (List A)
  gather turn n seen [] = ok []
  gather turn n seen (x ∷ xs) =
      after_turn seen (turn n seen x) (λ seen'. gather turn (suc n) seen' xs)

module _ {E I A : Type 0} (turn : ℕ → List A → I → Result E (Option A)) (Skip : I → Type 0)
    (Take : I → A → Type 0) (Fresh : List A → A → Type 0)
    (skip_iff : (n : ℕ) (seen : List A) (x : I) → (turn n seen x ≡ ok none) ↔ Skip x)
    (take_iff : (n : ℕ) (seen : List A) (x : I) (a : A)
      → (turn n seen x ≡ ok (some a)) ↔ (Take x a × Fresh seen a)) where
  Gathered : List A → List I → List A → Type 0
  Gathered seen xs ts = Matched Skip Take xs ts × FreshFrom Fresh seen ts

  after_turn-ok :
      (n : ℕ) (seen : List A) (x : I) (xs : List I) (ts : List A) (r : Result E (Option A))
      → turn n seen x ≡ r
      → (rest : List A → Result E (List A))
      → ((seen' bs : List A) → rest seen' ≡ ok bs → Gathered seen' xs bs)
      → after_turn seen r rest ≡ ok ts
      → Gathered seen (x ∷ xs) ts
  unfolding Gathered
  after_turn-ok n seen x xs ts (err e) q rest ih h = cc
  after_turn-ok n seen x xs ts (ok none) q rest ih h =
      let (m, f) = ih seen ts h in (inl ((skip_iff n seen x).0 q, m), f)
  after_turn-ok n seen x xs ts (ok (some a)) q rest ih h =
      let (bs, e, g) = taken-ok a (rest (a ∷ seen)) h in
      let (m, f) = ih (a ∷ seen) bs g in
      let (t, fr) = (take_iff n seen x a).0 q in
      (inr (a, bs, e, t, m), subst (λ l. FreshFrom Fresh seen l) (sym e) (fr, f))

  gather-ok :
      (n : ℕ) (seen : List A) (xs : List I) (ts : List A)
      → gather turn n seen xs ≡ ok ts
      → Gathered seen xs ts
  unfolding gather Gathered
  gather-ok n seen [] ts h =
      let e = sym (ok-injective h) in (e, subst (λ l. FreshFrom Fresh seen l) (sym e) tt)
  gather-ok n seen (x ∷ xs) ts h =
      after_turn-ok n seen x xs ts (turn n seen x) refl (λ s. gather turn (suc n) s xs)
        (λ s bs. gather-ok (suc n) s xs bs) h

  ok-gather :
      (n : ℕ) (seen : List A) (xs : List I) (ts : List A)
      → Gathered seen xs ts
      → gather turn n seen xs ≡ ok ts
  unfolding gather Gathered
  ok-gather n seen [] ts (e, f) = ap ok (sym e)
  ok-gather n seen (x ∷ xs) ts (inl (s, m), f) =
      rw ((skip_iff n seen x).1 s) (ok-gather (suc n) seen xs ts (m, f))
  ok-gather n seen (x ∷ xs) ts (inr (a, bs, e, t, m), f) =
      let g = subst (λ l. FreshFrom Fresh seen l) e f in
      rw ((take_iff n seen x a).1 (t, g.0), ok-gather (suc n) (a ∷ seen) xs bs (m, g.1))
        (ap ok (sym e))

  pub gather_iff :
      (n : ℕ) (seen : List A) (xs : List I) (ts : List A)
      → (gather turn n seen xs ≡ ok ts) ↔ (Matched Skip Take xs ts × FreshFrom Fresh seen ts)
  unfolding Gathered
  gather_iff n seen xs ts = (gather-ok n seen xs ts, ok-gather n seen xs ts)
