-- ===== src/Fido/Store/Counters.antt =====
-- The counters of the store over a sequence of bundles.
use arazu.Prelude.{
  ℕ, ◌≤◌, ◌<◌, Bool, true, false, Bool-cases, inl, inr, if◌then◌else◌, ◌≡◌, refl, ap, sym, subst,
  arith, List, [], ◌∷◌, ok, err, Pairs, Pairs-weaken, Text, text_eq, text_eq_iff, insert,
  lookup-insert_same, lookup-insert_other,
}
use arazu.Fido.{FidoError, Crypto, Assertion, FidoResult}
use arazu.Fido.Asserted.{verify-iff-IsAsserted}
use arazu.Fido.Store.{Store, Counters, or_zero, counter_of, verify_all, commit, committed}
use arazu.Fido.Store.Accepts.{Asserts, verify_all-iff-Accepted}

-- A checked counter exceeds the one that is stored.
abbrev pub Grows : Counters → Assertion → FidoResult → Type 0
Grows counters a r = r.counter_checked ≡ true → counter_of a.credential_id counters < r.sign_count

pub counter-insert_same : (id : Text) (n : ℕ) (m : Counters) → counter_of id (insert id n m) ≡ n
unfolding counter_of or_zero
counter-insert_same id n m = ap or_zero (lookup-insert_same id n m)

pub counter-insert_other :
    (id other : Text) (n : ℕ) (m : Counters)
    → text_eq other id ≡ false
    → counter_of id (insert other n m) ≡ counter_of id m
unfolding counter_of or_zero
counter-insert_other id other n m h = ap or_zero (lookup-insert_other id other n m h)

insert-le :
    (id other : Text) (n : ℕ) (start m : Counters)
    → counter_of other start < n
    → counter_of id start ≤ counter_of id m
    → counter_of id start ≤ counter_of id (insert other n m)
insert-le id other n start m grows h = elim (Bool-cases (text_eq other id)) [
  | inl e ↦
      let same = (text_eq_iff other id).0 e in
      subst (λ x. counter_of x start ≤ counter_of x (insert other n m)) same
        (omega (arith, grows, counter-insert_same other n m))
  | inr e ↦ omega (arith, h, counter-insert_other id other n m e)
]

advance-le :
    (id : Text) (start m : Counters) (a : Assertion) (r : FidoResult) (checked : Bool)
    → r.counter_checked ≡ checked
    → Grows start a r
    → counter_of id start ≤ counter_of id m
    → counter_of id start
      ≤ counter_of id (if checked then insert a.credential_id r.sign_count m else m)
advance-le id start m a r true e g h = insert-le id a.credential_id r.sign_count start m (g e) h
advance-le id start m a r false e g h = h

commit-le :
    (id : Text) (start m : Counters) (xs : List Assertion) (rs : List FidoResult)
    → Pairs (Grows start) xs rs
    → counter_of id start ≤ counter_of id m
    → counter_of id start ≤ counter_of id (commit rs xs m)
unfolding commit
commit-le id start m [] [] p h = h
commit-le id start m [] (r ∷ rs) p h = absurd p
commit-le id start m (a ∷ xs) [] p h = absurd p
commit-le id start m (a ∷ xs) (r ∷ rs) (g, p) h =
    commit-le id start (if r.counter_checked then insert a.credential_id r.sign_count m else m) xs
      rs p (advance-le id start m a r r.counter_checked refl g h)

-- What an accepted assertion says of its counter.
pub Asserts-Grows :
    (crypto : Crypto) (s : Store) (canonical : Text) (a : Assertion) (r : FidoResult)
    → Asserts crypto s canonical a r
    → Grows s.counters a r
Asserts-Grows crypto s canonical a r (c, f, v) checked =
    let i =
      (verify-iff-IsAsserted crypto a c s.policy (counter_of a.credential_id s.counters) canonical
          r).0
        v in
    elim i.counter [
      | inl (l, _) ↦ subst (λ n. counter_of a.credential_id s.counters < n) (sym i.counted) l
      | inr (_, _, _, f) ↦ cc
    ]

-- One bundle: its results are committed when it is accepted, and nothing changes when it is not.
pub data Step (crypto : Crypto) : Store → Store → Type 0 where
  accept :
      (s : Store) (canonical : Text) (assertions : List Assertion) (min : ℕ)
      (results : List FidoResult)
      → verify_all crypto s canonical assertions min ≡ ok results
      → Step crypto s (committed s results assertions)
  refuse :
      (s : Store) (canonical : Text) (assertions : List Assertion) (min : ℕ) (e : FidoError)
      → verify_all crypto s canonical assertions min ≡ err e
      → Step crypto s s

pub data Reach (crypto : Crypto) (s : Store) : Store → Type 0 where
  here : Reach crypto s s
  later : {t u : Store} → Reach crypto s t → Step crypto t u → Reach crypto s u

Step-le :
    {crypto : Crypto} {s t : Store} (id : Text)
    → Step crypto s t
    → counter_of id s.counters ≤ counter_of id t.counters
Step-le {crypto} id (accept s canonical assertions min results h) =
    let a = (verify_all-iff-Accepted crypto s canonical assertions min results).0 h in
    commit-le id s.counters s.counters assertions results
      (Pairs-weaken assertions results (Asserts-Grows crypto s canonical) a.each) (omega arith)
Step-le id (refuse s canonical assertions min e h) = omega arith

-- Whatever bundles come, no counter of a credential ever decreases.
pub Reach-le :
    {crypto : Crypto} {s t : Store} (id : Text)
    → Reach crypto s t
    → counter_of id s.counters ≤ counter_of id t.counters
Reach-le id here = omega arith
Reach-le id (later r st) = omega (arith, Reach-le id r, Step-le id st)
