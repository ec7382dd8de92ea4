-- ===== src/Fido/Store/Replay.antt =====
-- An assertion whose counter was checked and committed is spent.
use arazu.Prelude.{
  ℕ, ◌≤◌, Bool, true, false, Bool-cases, inl, inr, if◌then◌else◌, ◌≡◌, ◌≢◌, refl, ap, sym, subst,
  ◌∙◌, arith, List, [], ◌∷◌, Option, some, ok, ok-injective, Pairs, Pairs-weaken, FreshFrom, All,
  Text, text_eq, text_eq_iff, text_eq_refl, member, insert,
}
use arazu.Fido.{Crypto, Credential, Policy, Assertion, FidoResult, verify}
use arazu.Fido.Asserted.{verify-iff-IsAsserted}
use arazu.Fido.Store.{
  Store, Counters, credential_of, counter_of, signers_of, verify_all, commit, committed,
}
use arazu.Fido.Store.Accepts.{IsNew, Asserts, verify_all-iff-Accepted}
use arazu.Fido.Store.Counters.{
  Asserts-Grows, counter-insert_same, counter-insert_other, Reach, Reach-le,
}

abbrev Other : Text → Assertion → Type 0
Other id a = text_eq a.credential_id id ≡ false

-- An assertion is of the person of its credential.
abbrev OfPerson : List Credential → Assertion → FidoResult → Type 0
OfPerson credentials a r =
    (c : Credential) × (credential_of a.credential_id credentials ≡ some c) × (r.signer ≡ c.signer)

Asserts-OfPerson :
    (crypto : Crypto) (s : Store) (canonical : Text) (a : Assertion) (r : FidoResult)
    → Asserts crypto s canonical a r
    → OfPerson s.credentials a r
Asserts-OfPerson crypto s canonical a r (c, f, v) = (
  c,
  f,
  ((verify-iff-IsAsserted crypto a c s.policy (counter_of a.credential_id s.counters) canonical r).0
      v).person,
)

some-injective : {A : Type 0} {a b : A} → Path (Option A) (some a) (some b) → a ≡ b
some-injective h = cc

member-later : (t s : Text) (ss : List Text) → member t ss ≡ true → member t (s ∷ ss) ≡ true
unfolding member
member-later t s ss h = ground arith

member-first : (t : Text) (ss : List Text) → member t (t ∷ ss) ≡ true
unfolding member
member-first t ss = rw (text_eq_refl t) refl

advance-other :
    (checked : Bool) (id other : Text) (n : ℕ) (m : Counters)
    → text_eq other id ≡ false
    → counter_of id (if checked then insert other n m else m) ≡ counter_of id m
advance-other true id other n m h = counter-insert_other id other n m h
advance-other false id other n m h = refl

module _ (credentials : List Credential) where
  -- After a person's assertion, no other is of the same credential.
  others :
      (id person : Text) (c : Credential)
      → credential_of id credentials ≡ some c
      → c.signer ≡ person
      → (seen : List FidoResult) (xs : List Assertion) (rs : List FidoResult)
      → member person (signers_of seen) ≡ true
      → Pairs (OfPerson credentials) xs rs
      → FreshFrom IsNew seen rs
      → All (Other id) xs
  unfolding signers_of
  others id person c f q seen [] [] w p fr = tt
  others id person c f q seen [] (r ∷ rs) w p fr = absurd p
  others id person c f q seen (a ∷ xs) [] w p fr = absurd p
  others id person c f q seen (a ∷ xs) (r ∷ rs) w ((c', f', q'), p) (new, fr) = (
    elim (Bool-cases (text_eq a.credential_id id)) [
      | inl e ↦
          let same = (text_eq_iff a.credential_id id).0 e in
          let one = some-injective (sym f' ∙ ap (λ x. credential_of x credentials) same ∙ f) in
          let who = q' ∙ ap (λ x. x.signer) one ∙ q in
          cc (subst (λ x. member x (signers_of seen) ≡ false) who new, w)
      | inr e ↦ e
    ],
    others id person c f q (r ∷ seen) xs rs (member-later person r.signer (signers_of seen) w) p fr,
  )

  commit-Other :
      (id : Text) (xs : List Assertion) (rs : List FidoResult) (m : Counters)
      → All (Other id) xs
      → counter_of id (commit rs xs m) ≡ counter_of id m
  unfolding commit
  commit-Other id xs [] m h = refl
  commit-Other id [] (r ∷ rs) m h = refl
  commit-Other id (a ∷ xs) (r ∷ rs) m (o, h) =
      commit-Other id xs rs (if r.counter_checked then insert a.credential_id r.sign_count m else m)
        h
      ∙ advance-other r.counter_checked id a.credential_id r.sign_count m o

  -- The counter that is committed for an assertion is its own.
  abbrev IsKept : Counters → Assertion → FidoResult → Type 0
  IsKept counters a r =
      r.counter_checked ≡ true → counter_of a.credential_id counters ≡ r.sign_count

  commit-IsKept :
      (seen : List FidoResult) (xs : List Assertion) (rs : List FidoResult) (m : Counters)
      → Pairs (OfPerson credentials) xs rs
      → FreshFrom IsNew seen rs
      → Pairs (IsKept (commit rs xs m)) xs rs
  unfolding commit signers_of
  commit-IsKept seen [] [] m p fr = tt
  commit-IsKept seen [] (r ∷ rs) m p fr = p
  commit-IsKept seen (a ∷ xs) [] m p fr = p
  commit-IsKept seen (a ∷ xs) (r ∷ rs) m ((c, f, q), p) (new, fr) =
      let m' = if r.counter_checked then insert a.credential_id r.sign_count m else m in
      (
        (λ checked.
            commit-Other a.credential_id xs rs m' (
              others a.credential_id r.signer c f (sym q) (r ∷ seen) xs rs
                (member-first r.signer (signers_of seen)) p fr)
            ∙ ap
                (λ b.
                  counter_of a.credential_id
                    (if b then insert a.credential_id r.sign_count m else m))
                checked
            ∙ counter-insert_same a.credential_id r.sign_count m),
        commit-IsKept (r ∷ seen) xs rs m' p fr,
      )

-- Nothing accepts the assertion in the store: no credential, no policy and no manifest.
abbrev pub Refused : Crypto → Store → Assertion → Type 0
Refused crypto s a =
    (c : Credential) (p : Policy) (canonical : Text) (r : FidoResult)
    → verify crypto a c p (counter_of a.credential_id s.counters) canonical ≢ ok r

abbrev pub Spent : Crypto → Store → Assertion → FidoResult → Type 0
Spent crypto s a r = r.counter_checked ≡ true → Refused crypto s a

outgrown :
    (crypto : Crypto) (s t : Store) (canonical : Text) (a : Assertion) (r : FidoResult)
    → Asserts crypto s canonical a r
    → r.sign_count ≤ counter_of a.credential_id t.counters
    → Spent crypto t a r
outgrown crypto s t canonical a r asserts le checked c' p' canonical' r' h =
    let grows = Asserts-Grows crypto s canonical a r asserts checked in
    let i =
      (verify-iff-IsAsserted crypto a asserts.0 s.policy (counter_of a.credential_id s.counters)
          canonical r).0
        asserts.2 in
    let j =
      (verify-iff-IsAsserted crypto a c' p' (counter_of a.credential_id t.counters) canonical' r').0
        h in
    let same = ap (λ x. x.sign_count) (ok-injective (sym i.parsed ∙ j.parsed)) in
    elim j.counter [
      | inl (l, _) ↦ omega (arith, l, le, same, i.counted)
      | inr (z, _, _, _) ↦ omega (arith, grows, same, i.counted, z)
    ]

Pairs-both :
    {P Q R : Assertion → FidoResult → Type 0} (xs : List Assertion) (rs : List FidoResult)
    → ((a : Assertion) (r : FidoResult) → P a r → Q a r → R a r)
    → Pairs P xs rs
    → Pairs Q xs rs
    → Pairs R xs rs
Pairs-both [] [] f p q = tt
Pairs-both [] (r ∷ rs) f p q = p
Pairs-both (x ∷ xs) [] f p q = p
Pairs-both (x ∷ xs) (r ∷ rs) f (p, ps) (q, qs) = (f x r p q, Pairs-both xs rs f ps qs)

-- Once assertions are accepted and committed, each of them whose counter was checked is refused from
-- then on, whatever bundles come in between, with any credential, policy and manifest.
pub verify_all-Spent :
    (crypto : Crypto) (s t : Store) (canonical : Text) (assertions : List Assertion) (min : ℕ)
    (results : List FidoResult)
    → verify_all crypto s canonical assertions min ≡ ok results
    → Reach crypto (committed s results assertions) t
    → Pairs (Spent crypto t) assertions results
verify_all-Spent crypto s t canonical assertions min results h reach =
    let a = (verify_all-iff-Accepted crypto s canonical assertions min results).0 h in
    let kept =
      commit-IsKept s.credentials [] assertions results s.counters
        (Pairs-weaken assertions results (Asserts-OfPerson crypto s canonical) a.each) a.distinct in
    Pairs-both assertions results
      (λ x r p k checked.
        outgrown crypto s t canonical x r p
          (omega (arith, k checked, Reach-le x.credential_id reach)) checked)
      a.each kept
