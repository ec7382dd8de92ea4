-- ===== src/Fido/Store/Accepts.antt =====
-- What `VerifyAll` of the security keys accepts.
use arazu.Prelude.{
  ℕ, ◌≤◌, false, not, not-true_iff, ltb, enough_iff, ◌≡◌, ◌↔◌, refl, subst, List, [], length, none,
  some, ok, >>=_iff, guard->>_iff, map_err, map_err_iff, some_or, some_or_iff, ok-injective, gather,
  gather_iff, Pairs, Matched-Pairs_iff, FreshFrom, taking-some_iff, taking-takes, Text, member,
}
use arazu.Fido.{
  Crypto, Credential, Assertion, FidoResult, unknown_credential, duplicate_signer,
  insufficient_signers, at_assertion, verify,
}
use arazu.Fido.Store.{
  Store, credential_of, counter_of, signers_of, verified_assertion, assertion_turn, verify_all,
}

-- The person is not among those who were taken before.
abbrev pub IsNew : List FidoResult → FidoResult → Type 0
IsNew seen r = member r.signer (signers_of seen) ≡ false

module _ (crypto : Crypto) (s : Store) (canonical : Text) where
  -- An assertion verifies by the provisioned credential that it names and its stored counter.
  abbrev pub Asserts : Assertion → FidoResult → Type 0
  Asserts a r =
      (c : Credential) × (credential_of a.credential_id s.credentials ≡ some c)
      × (verify crypto a c s.policy (counter_of a.credential_id s.counters) canonical ≡ ok r)

  pub record Accepted (assertions : List Assertion) (min_distinct : ℕ) (results : List FidoResult)
      : Type 0 where
    pub each : Pairs Asserts assertions results
    pub distinct : FreshFrom IsNew [] results
    pub enough : min_distinct ≤ length results

  asserts_iff :
      (n : ℕ) (seen : List FidoResult) (a : Assertion) (r : FidoResult)
      → (verified_assertion crypto s canonical n seen a ≡ ok r) ↔ (Asserts a r × IsNew seen r)
  unfolding verified_assertion
  asserts_iff n seen a r = (
    (λ h.
        let found = credential_of a.credential_id s.credentials in
        let (c, g, h1) = (>>=_iff (some_or unknown_credential found) _).0 h in
        let v = verify crypto a c s.policy (counter_of a.credential_id s.counters) canonical in
        let (r', q, h2) = (>>=_iff (map_err (at_assertion n) v) _).0 h1 in
        let (u, h3) =
          (guard->>_iff (not (member r'.signer (signers_of seen))) (duplicate_signer r'.signer) _).0
            h2 in
        subst (λ x. Asserts a x × IsNew seen x) (ok-injective h3)
          (
            (c, (some_or_iff unknown_credential found).0 g, (map_err_iff (at_assertion n) v).0 q),
            (not-true_iff (member r'.signer (signers_of seen))).0 u,
          )),
    (λ ((c, g, q), u). rw (g, q, u) refl),
  )

  turn-skips_iff :
      (n : ℕ) (seen : List FidoResult) (a : Assertion)
      → (assertion_turn crypto s canonical n seen a ≡ ok none) ↔ ⊥
  unfolding assertion_turn
  turn-skips_iff n seen a =
      (taking-takes (verified_assertion crypto s canonical n seen a), (λ f. absurd f))

  turn-Asserts_iff :
      (n : ℕ) (seen : List FidoResult) (a : Assertion) (r : FidoResult)
      → (assertion_turn crypto s canonical n seen a ≡ ok (some r)) ↔ (Asserts a r × IsNew seen r)
  unfolding assertion_turn
  turn-Asserts_iff n seen a r =
      let t = taking-some_iff (verified_assertion crypto s canonical n seen a) r in
      let i = asserts_iff n seen a r in ((λ h. i.0 (t.0 h)), (λ h. t.1 (i.1 h)))

  loop_iff :
      (assertions : List Assertion) (results : List FidoResult)
      → (gather (assertion_turn crypto s canonical) 1 [] assertions ≡ ok results)
        ↔ (Pairs Asserts assertions results × FreshFrom IsNew [] results)
  loop_iff assertions results =
      let g =
        gather_iff (assertion_turn crypto s canonical) (λ _. ⊥) Asserts IsNew turn-skips_iff
          turn-Asserts_iff 1 [] assertions results in
      let p = Matched-Pairs_iff Asserts assertions results in
      ((λ h. let (m, f) = g.0 h in (p.0 m, f)), (λ (m, f). g.1 (p.1 m, f)))

  -- Assertions are accepted, with one result each in their order, exactly when each verifies by the
  -- provisioned credential that it names against the stored counter, no person asserts twice, and
  -- the people are at least as many as asked.
  pub verify_all-iff-Accepted :
      (assertions : List Assertion) (min : ℕ) (results : List FidoResult)
      → (verify_all crypto s canonical assertions min ≡ ok results)
        ↔ Accepted assertions min results
  unfolding verify_all
  verify_all-iff-Accepted assertions min results = (
    (λ h.
        let (order, g, h1) =
          (>>=_iff (gather (assertion_turn crypto s canonical) 1 [] assertions) _).0 h in
        let (e, h2) =
          (guard->>_iff (not (ltb (length order) min)) (insufficient_signers (length order) min)
              _).0
            h1 in
        let (m, f) = (loop_iff assertions order).0 g in
        subst (λ x. Accepted assertions min x) (ok-injective h2)
          (record { each = m; distinct = f; enough = (enough_iff min (length order)).0 e })),
    (λ a.
        rw
          (
            (loop_iff assertions results).1 (a.each, a.distinct),
            (enough_iff min (length results)).1 a.enough,
          )
          refl),
  )
