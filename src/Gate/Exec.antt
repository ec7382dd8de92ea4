-- ===== src/Gate/Exec.antt =====
-- Actions of a stage on the world: each may fail with an error's text, and what it did before it
-- failed stays done.
use arazu.Prelude.{
  String, ◌≡◌, ap, ◌∙◌, refl, Result, ok, err, concat, ok-injective, Bool, true, false, [],
}
use arazu.Prelude.{◌∷◌}

abbrev pub Exec : Type 0 → Type 0 → Type 0
Exec W A = W → Result String A × W

relabel : {A : Type 0} → String → Result String A → Result String A
relabel label (ok a) = ok a
relabel label (err e) = err (concat (label ∷ ": " ∷ e ∷ []))

module _ {W A : Type 0} where
  abbrev pub pure : A → Exec W A
  pure a w = (ok a, w)

  -- fmt.Errorf("label: %w", err)
  unfoldable pub wrap : String → Exec W A → Exec W A
  unfolding relabel
  wrap label m w = let (r, w') = m w in (relabel label r, w')

  -- A call whose error the caller looks at.
  unfoldable pub attempt : Exec W A → Exec W (Result String A)
  attempt m w = let (r, w') = m w in (ok r, w')

module _ {W A B : Type 0} where
  abbrev continue : Result String A → (A → Exec W B) → W → Result String B × W
  continue (ok a) f w = f a w
  continue (err e) f w = (err e, w)

  infixl 10 ◌>>=◌ ◌>>◌
  unfoldable pub ◌>>=◌ : Exec W A → (A → Exec W B) → Exec W B
  ◌>>=◌ m f w = let (r, w') = m w in continue r f w'

  abbrev pub ◌>>◌ : Exec W A → Exec W B → Exec W B
  m >> n = m >>= λ _. n

-- if !b { return …, errors.New(message) }
unfoldable pub require : {W : Type 0} → Bool → String → Exec W (Unit {0})
require true message w = (ok tt, w)
require false message w = (err message, w)

-- What an action did when it returned a value.
abbrev pub Did : {W A : Type 0} → Exec W A → W → A → W → Type 0
Did m w a w' = m w ≡ (ok a, w')

module _ {W A B : Type 0} where
  continue-ok :
      (r : Result String A) (f : A → Exec W B) (w1 w' : W) {b : B}
      → continue r f w1 ≡ (ok b, w')
      → (a : A) × (r ≡ ok a) × Did (f a) w1 b w'
  continue-ok (ok a) f w1 w' h = (a, refl, h)
  continue-ok (err e) f w1 w' h = cc

  pub >>=-Did :
      (m : Exec W A) (f : A → Exec W B) (w w' : W) {b : B}
      → Did (m >>= f) w b w'
      → (a : A) × (w1 : W) × Did m w a w1 × Did (f a) w1 b w'
  unfolding ◌>>=◌
  >>=-Did m f w w' h =
      let (a, e, g) = continue-ok (m w).0 f (m w).1 w' h in (a, (m w).1, λ i. (e i, (m w).1), g)

  pub Did->>= :
      (m : Exec W A) (f : A → Exec W B) {w w1 w' : W} {a : A} {b : B}
      → Did m w a w1
      → Did (f a) w1 b w'
      → Did (m >>= f) w b w'
  unfolding ◌>>=◌
  Did->>= m f p q = rw p q

relabel-ok :
    {A : Type 0} (label : String) (r : Result String A) {a : A} → relabel label r ≡ ok a → r ≡ ok a
unfolding relabel
relabel-ok label (ok a) h = h
relabel-ok label (err e) h = cc

module _ {W A : Type 0} where
  pub wrap-Did :
      (label : String) (m : Exec W A) (w w' : W) {a : A} → Did (wrap label m) w a w' → Did m w a w'
  unfolding wrap
  wrap-Did label m w w' h = λ i. (relabel-ok label (m w).0 (λ j. (h j).0) i, (h i).1)

  pub Did-wrap :
      (label : String) (m : Exec W A) {w w' : W} {a : A} → Did m w a w' → Did (wrap label m) w a w'
  unfolding wrap relabel
  Did-wrap label m p = rw p refl

pub require-Did :
    {W : Type 0} (b : Bool) (message : String) (w w' : W) {u : Unit {0}}
    → Did (require b message) w u w'
    → (b ≡ true) × (w ≡ w')
unfolding require
require-Did true message w w' h = (refl, λ i. (h i).1)
require-Did false message w w' h = cc

pub Did-require :
    {W : Type 0} (b : Bool) (message : String) (w : W) → b ≡ true → Did (require b message) w tt w
unfolding require
Did-require b message w h = rw h

module _ {W A : Type 0} where
  pub attempt-Did :
      (m : Exec W A) (w w' : W) {r : Result String A} → Did (attempt m) w r w' → m w ≡ (r, w')
  unfolding attempt
  attempt-Did m w w' h = λ i. (ok-injective (λ j. (h j).0) i, (h i).1)

  pub Did-attempt :
      (m : Exec W A) {w w' : W} {r : Result String A} → m w ≡ (r, w') → Did (attempt m) w r w'
  unfolding attempt
  Did-attempt m p = rw p

  pub pure-Did : (a : A) (w w' : W) {b : A} → Did (pure a) w b w' → (a ≡ b) × (w ≡ w')
  pure-Did a w w' h = (ok-injective (λ j. (h j).0), λ i. (h i).1)

  pub Did-start : (m : Exec W A) {w v w' : W} {a : A} → w ≡ v → Did m v a w' → Did m w a w'
  Did-start m e h = rw e h

  pub Did-end : (m : Exec W A) {w v w' : W} {a : A} → v ≡ w' → Did m w a v → Did m w a w'
  Did-end m {a = a} e h = h ∙ ap (λ u. (ok a, u)) e
