-- ===== src/Manifest/Signatures/Endorsed.antt =====
-- What `VerifySignatures` accepts.
use arazu.Prelude.{
  ℕ, ◌≤◌, true, false, not, not-true_iff, ltb, enough_iff, ◌≡◌, ◌↔◌, refl, subst, Bool-cases, inl,
  inr, List, [], ◌∷◌, length, none, some, ok, >>=_iff, guard->>_iff, map_err, map_err_iff, some_or,
  some_or_iff, ok-injective, gather, gather_iff, Matched, FreshFrom, taking-some_iff, taking-takes,
  Text, codes, text_eq, text_eq_iff, member, lookup, fields, trim_space, drop_cr, raw_lines,
  fits_in,
}
use arazu.Manifest.Signatures.{
  Scheme, Keys, max_line, untrusted_signer, undecodable_signature, not_verified, duplicate_signer,
  long_line, insufficient_signatures, three_fields, signature_line, blank_or_signature,
  signature_turn, verify_signatures,
}

-- A line that the scanner can hold and that says nothing.
abbrev pub IsBlank : Text → Type 0
IsBlank line = (fits_in max_line line ≡ true) × (trim_space (drop_cr line) ≡ [])

module _ (scheme : Scheme) (canonical : Text) (trusted : Keys) where
  -- A line that the scanner can hold and that is a signature over the manifest by the trusted key
  -- that it names.
  pub record Signs (line : Text) (id : Text) : Type 0 where
    pub coded : Text
    pub key : Text
    pub signature : Text
    pub fitting : fits_in max_line line ≡ true
    pub shape : fields (trim_space (drop_cr line)) ≡ codes "ed25519" ∷ id ∷ coded ∷ []
    pub known : lookup id trusted ≡ some key
    pub decoded : scheme.decode coded ≡ ok signature
    pub verified : scheme.verifies key canonical signature ≡ true

  -- Every line of a signature file is blank or signs, the signers are the signers of the lines in
  -- their order, nobody signs twice, and they are enough.
  pub record Endorsed (sig_file : Text) (min_distinct : ℕ) (signers : List Text) : Type 0 where
    pub lines : Matched IsBlank Signs (raw_lines sig_file) signers
    pub distinct : FreshFrom (λ seen id. member id seen ≡ false) [] signers
    pub enough : min_distinct ≤ length signers

three-injective :
    {a b c d e f : Text}
    → Path (List Text) (a ∷ b ∷ c ∷ []) (d ∷ e ∷ f ∷ [])
    → (a ≡ d) × (b ≡ e) × (c ≡ f)
three-injective h = (cc, cc, cc)

three_fields_iff :
    (n : ℕ) (fs : List Text) (id coded : Text)
    → (three_fields n fs ≡ ok (id, coded)) ↔ (fs ≡ codes "ed25519" ∷ id ∷ coded ∷ [])
unfolding three_fields
three_fields_iff n [] id coded = ((λ h. cc), (λ h. cc))
three_fields_iff n (alg ∷ []) id coded = ((λ h. cc), (λ h. cc))
three_fields_iff n (alg ∷ x ∷ []) id coded = ((λ h. cc), (λ h. cc))
three_fields_iff n (alg ∷ x ∷ y ∷ []) id coded = elim (Bool-cases (text_eq alg (codes "ed25519"))) [
  | inl e ↦ rw e (
    (λ h. λ i.
        (text_eq_iff alg (codes "ed25519")).0 e i
        ∷ (ok-injective h i).0
        ∷ (ok-injective h i).1
        ∷ []),
    (λ h. let (_, b, c) = three-injective h in λ i. ok (b i, c i)),
  )
  | inr e ↦
      rw e ((λ h. cc), (λ h. cc (e, (text_eq_iff alg (codes "ed25519")).1 (three-injective h).0)))
]
three_fields_iff n (alg ∷ x ∷ y ∷ z ∷ r) id coded = ((λ h. cc), (λ h. cc))

module _ (scheme : Scheme) (canonical : Text) (trusted : Keys) where
  -- A line that is not blank, once it is trimmed.
  record SignsTrimmed (line : Text) (id : Text) : Type 0 where
    coded : Text
    key : Text
    signature : Text
    shape : fields line ≡ codes "ed25519" ∷ id ∷ coded ∷ []
    known : lookup id trusted ≡ some key
    decoded : scheme.decode coded ≡ ok signature
    verified : scheme.verifies key canonical signature ≡ true

  line-Signs :
      (n : ℕ) (seen : List Text) (line id : Text)
      → signature_line scheme canonical trusted n seen line ≡ ok id
      → SignsTrimmed line id × (member id seen ≡ false)
  unfolding signature_line
  line-Signs n seen line id h =
      let ((id', coded), f, h1) = (>>=_iff (three_fields n (fields line)) _).0 h in
      let (key, k, h2) = (>>=_iff (some_or (untrusted_signer id') (lookup id' trusted)) _).0 h1 in
      let (sig, d, h3) =
        (>>=_iff (map_err (undecodable_signature n) (scheme.decode coded)) _).0 h2 in
      let (v, h4) = (guard->>_iff (scheme.verifies key canonical sig) (not_verified id') _).0 h3 in
      let (u, h5) = (guard->>_iff (not (member id' seen)) (duplicate_signer id') _).0 h4 in
      subst (λ x. SignsTrimmed line x × (member x seen ≡ false)) (ok-injective h5)
        (
          record {
            coded = coded;
            key = key;
            signature = sig;
            shape = (three_fields_iff n (fields line) id' coded).0 f;
            known = (some_or_iff (untrusted_signer id') (lookup id' trusted)).0 k;
            decoded = (map_err_iff (undecodable_signature n) (scheme.decode coded)).0 d;
            verified = v;
          },
          (not-true_iff (member id' seen)).0 u,
        )

  Signs-line :
      (n : ℕ) (seen : List Text) (line id : Text)
      → SignsTrimmed line id
      → member id seen ≡ false
      → signature_line scheme canonical trusted n seen line ≡ ok id
  unfolding signature_line
  Signs-line n seen line id s u =
      rw
        ((three_fields_iff n (fields line) id s.coded).1 s.shape, s.known, s.decoded, s.verified, u)
        refl

  trimmed-Signs :
      (line id : Text)
      → fits_in max_line line ≡ true
      → SignsTrimmed (trim_space (drop_cr line)) id
      → Signs scheme canonical trusted line id
  trimmed-Signs line id f s = record {
    coded = s.coded;
    key = s.key;
    signature = s.signature;
    fitting = f;
    shape = s.shape;
    known = s.known;
    decoded = s.decoded;
    verified = s.verified;
  }

  Signs-trimmed :
      (line id : Text)
      → Signs scheme canonical trusted line id
      → SignsTrimmed (trim_space (drop_cr line)) id
  Signs-trimmed line id s = record {
    coded = s.coded;
    key = s.key;
    signature = s.signature;
    shape = s.shape;
    known = s.known;
    decoded = s.decoded;
    verified = s.verified;
  }

  not-SignsTrimmed-nil : (id : Text) → SignsTrimmed [] id → ⊥
  unfolding fields
  not-SignsTrimmed-nil id s = let h = s.shape in cc

  blank_iff :
      (n : ℕ) (seen : List Text) (t : Text)
      → (blank_or_signature scheme canonical trusted n seen t ≡ ok none) ↔ (t ≡ [])
  unfolding blank_or_signature
  blank_iff n seen [] = ((λ h. refl), (λ h. refl))
  blank_iff n seen (c ∷ t) = (
    (λ h. absurd (taking-takes (signature_line scheme canonical trusted n seen (c ∷ t)) h)),
    (λ h. cc),
  )

  signature_iff :
      (n : ℕ) (seen : List Text) (t id : Text)
      → (blank_or_signature scheme canonical trusted n seen t ≡ ok (some id))
        ↔ (SignsTrimmed t id × (member id seen ≡ false))
  unfolding blank_or_signature
  signature_iff n seen [] id = ((λ h. cc), (λ h. absurd (not-SignsTrimmed-nil id h.0)))
  signature_iff n seen (c ∷ t) id =
      let r = signature_line scheme canonical trusted n seen (c ∷ t) in
      (
        (λ h. line-Signs n seen (c ∷ t) id ((taking-some_iff r id).0 h)),
        (λ h. (taking-some_iff r id).1 (Signs-line n seen (c ∷ t) id h.0 h.1)),
      )

  turn-IsBlank_iff :
      (n : ℕ) (seen : List Text) (line : Text)
      → (signature_turn scheme canonical trusted n seen line ≡ ok none) ↔ IsBlank line
  unfolding signature_turn
  turn-IsBlank_iff n seen line =
      let t = trim_space (drop_cr line) in
      let g =
        guard->>_iff (fits_in max_line line) long_line
          (blank_or_signature scheme canonical trusted n seen t) in
      (
        (λ h. let (f, b) = g.0 h in (f, (blank_iff n seen t).0 b)),
        (λ (f, b). g.1 (f, (blank_iff n seen t).1 b)),
      )

  turn-Signs_iff :
      (n : ℕ) (seen : List Text) (line id : Text)
      → (signature_turn scheme canonical trusted n seen line ≡ ok (some id))
        ↔ (Signs scheme canonical trusted line id × (member id seen ≡ false))
  unfolding signature_turn
  turn-Signs_iff n seen line id =
      let t = trim_space (drop_cr line) in
      let g =
        guard->>_iff (fits_in max_line line) long_line
          (blank_or_signature scheme canonical trusted n seen t) in
      (
        (λ h.
            let (f, b) = g.0 h in
            let (s, u) = (signature_iff n seen t id).0 b in (trimmed-Signs line id f s, u)),
        (λ (s, u). g.1 (s.fitting, (signature_iff n seen t id).1 (Signs-trimmed line id s, u))),
      )

  loop_iff :
      (lines signers : List Text)
      → (gather (signature_turn scheme canonical trusted) 1 [] lines ≡ ok signers) ↔ (
          Matched IsBlank (Signs scheme canonical trusted) lines signers
          × FreshFrom (λ seen id. member id seen ≡ false) [] signers)
  loop_iff lines signers =
      gather_iff (signature_turn scheme canonical trusted) IsBlank (Signs scheme canonical trusted)
        (λ seen id. member id seen ≡ false) turn-IsBlank_iff turn-Signs_iff 1 [] lines signers

  verify-ok :
      (sig_file : Text) (min : ℕ) (signers : List Text)
      → verify_signatures scheme canonical trusted sig_file min ≡ ok signers
      → Endorsed scheme canonical trusted sig_file min signers
  unfolding verify_signatures
  verify-ok sig_file min signers h =
      let (order, g, h1) =
        (>>=_iff (gather (signature_turn scheme canonical trusted) 1 [] (raw_lines sig_file)) _).0
          h in
      let (e, h2) =
        (guard->>_iff (not (ltb (length order) min)) (insufficient_signatures (length order) min)
            _).0
          h1 in
      let (m, f) = (loop_iff (raw_lines sig_file) order).0 g in
      subst (λ x. Endorsed scheme canonical trusted sig_file min x) (ok-injective h2)
        (record { lines = m; distinct = f; enough = (enough_iff min (length order)).0 e })

  ok-verify :
      (sig_file : Text) (min : ℕ) (signers : List Text)
      → Endorsed scheme canonical trusted sig_file min signers
      → verify_signatures scheme canonical trusted sig_file min ≡ ok signers
  unfolding verify_signatures
  ok-verify sig_file min signers e =
      rw
        (
          (loop_iff (raw_lines sig_file) signers).1 (e.lines, e.distinct),
          (enough_iff min (length signers)).1 e.enough,
        )
        refl

  -- Signatures are accepted, with the signers in the order of the lines, exactly when every line is
  -- blank or a signature over the manifest by the trusted key that it names, no key signs twice and
  -- the keys are at least as many as asked.
  pub verify_signatures-iff-Endorsed :
      (sig_file : Text) (min : ℕ) (signers : List Text)
      → (verify_signatures scheme canonical trusted sig_file min ≡ ok signers)
        ↔ Endorsed scheme canonical trusted sig_file min signers
  verify_signatures-iff-Endorsed sig_file min signers =
      (verify-ok sig_file min signers, ok-verify sig_file min signers)
