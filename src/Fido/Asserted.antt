-- ===== src/Fido/Asserted.antt =====
-- What `Verify` accepts of one assertion.
use arazu.Prelude.{
  ℕ, zero, suc, ◌^◌, ◌≤◌, ◌<◌, Bool, true, false, not, ◌&&◌, ltb, nat_eq, nat_eq→path, enough_iff,
  ltb→lt, lt→ltb, if◌then◌else◌, ◌≡◌, ◌↔◌, ◌⊎◌, inl, inr, refl, ap, sym, subst, arith, [], ◌∷◌,
  ◌++◌, length, All, Result, ok, err, >>=_iff, guard->>_iff, ok-injective, Text, text_eq,
  text_eq_iff,
}
use arazu.Fido.{
  FidoError, Crypto, Credential, Policy, Assertion, AuthData, FidoResult, unknown_credential,
  rp_mismatch, no_user_presence, no_user_verification, counter_regression, counter_unsupported,
  malformed_auth_data, auth_data_min_len, user_present, user_verified, has_blocks, byte_at,
  uint32_at, header, parse_auth_data, check_counter, client_data_hash, verify_signature, verify,
}

-- The counter grew, or the authenticator has none and need not have one.
abbrev pub CounterPasses : Policy → ℕ → ℕ → Bool → Type 0
CounterPasses p count last checked =
    ((last < count) × (checked ≡ true))
    ⊎ ((count ≡ 0) × (last ≡ 0) × (p.require_counter ≡ false) × (checked ≡ false))

switched :
    (grew none_kept required : Bool) (e1 e2 : FidoError) (checked : Bool)
    → Path
        (Result FidoError Bool)
        (if grew
          then ok true
          else if none_kept
          then (if required then err e1 else ok false)
          else err e2)
        (ok checked)
    → ((grew ≡ true) × (checked ≡ true))
      ⊎ ((none_kept ≡ true) × (required ≡ false) × (checked ≡ false))
switched true n q e1 e2 checked h = inl (refl, sym (ok-injective h))
switched false true true e1 e2 checked h = cc
switched false true false e1 e2 checked h = inr (refl, refl, sym (ok-injective h))
switched false false q e1 e2 checked h = cc

check_counter-ok :
    (p : Policy) (count last : ℕ) (checked : Bool)
    → check_counter p count last ≡ ok checked
    → CounterPasses p count last checked
unfolding check_counter
check_counter-ok p count last checked h =
    elim (switched (ltb last count) (nat_eq count 0 && nat_eq last 0) p.require_counter
      counter_unsupported (counter_regression count last) checked h) [
        | inl (g, c) ↦ inl (ltb→lt last count g, c)
        | inr (n, q, c) ↦ inr (ground arith, ground arith, q, c)
      ]

ok-check_counter :
    (p : Policy) (count last : ℕ) (checked : Bool)
    → CounterPasses p count last checked
    → check_counter p count last ≡ ok checked
unfolding check_counter
ok-check_counter p count last checked (inl (l, c)) = rw (lt→ltb last count l, c) refl
ok-check_counter p count last checked (inr (x, y, q, c)) = rw (x, y, q, c) refl

flags_pass_iff : (a b : Bool) → (not (a && not b) ≡ true) ↔ (a ≡ true → b ≡ true)
flags_pass_iff true true = ((λ h q. refl), (λ h. refl))
flags_pass_iff true false = ((λ h q. cc), (λ h. h refl))
flags_pass_iff false b = ((λ h q. cc), (λ h. refl))

-- Every condition on an assertion that is accepted, and what is reported of it.
pub record IsAsserted (crypto : Crypto) (a : Assertion) (c : Credential) (p : Policy) (last : ℕ)
    (canonical : Text) (r : FidoResult) : Type 0 where
  pub ad : AuthData
  pub named : a.credential_id ≡ c.id
  pub enrolled : c.rp_id ≡ p.rp_id
  pub parsed : parse_auth_data a.auth_data ≡ ok ad
  pub made_for : ad.rp_id_hash ≡ crypto.sha256 p.rp_id
  pub touched : user_present ad ≡ true
  pub verified : p.require_uv ≡ true → user_verified ad ≡ true
  pub signed :
      verify_signature crypto c (a.auth_data ++ client_data_hash crypto canonical) a.signature
      ≡ ok tt
  pub counter : CounterPasses p ad.sign_count last r.counter_checked
  pub person : r.signer ≡ c.signer
  pub counted : r.sign_count ≡ ad.sign_count
  pub reported : r.user_verified ≡ user_verified ad

module _ (crypto : Crypto) (a : Assertion) (c : Credential) (p : Policy) (last : ℕ)
    (canonical : Text) where
  verify-IsAsserted :
      (r : FidoResult)
      → verify crypto a c p last canonical ≡ ok r
      → IsAsserted crypto a c p last canonical r
  unfolding verify
  verify-IsAsserted r h =
      let signed = a.auth_data ++ client_data_hash crypto canonical in
      let (n, h1) = (guard->>_iff (text_eq a.credential_id c.id) unknown_credential _).0 h in
      let (e, h2) = (guard->>_iff (text_eq c.rp_id p.rp_id) rp_mismatch _).0 h1 in
      let (ad, q, h3) = (>>=_iff (parse_auth_data a.auth_data) _).0 h2 in
      let (m, h4) =
        (guard->>_iff (text_eq ad.rp_id_hash (crypto.sha256 p.rp_id)) rp_mismatch _).0 h3 in
      let (t, h5) = (guard->>_iff (user_present ad) no_user_presence _).0 h4 in
      let (v, h6) =
        (guard->>_iff (not (p.require_uv && not (user_verified ad))) no_user_verification _).0 h5 in
      let (_, g, h7) = (>>=_iff (verify_signature crypto c signed a.signature) _).0 h6 in
      let (checked, k, h8) = (>>=_iff (check_counter p ad.sign_count last) _).0 h7 in
      subst (λ x. IsAsserted crypto a c p last canonical x) (ok-injective h8)
        (record {
          ad = ad;
          named = (text_eq_iff a.credential_id c.id).0 n;
          enrolled = (text_eq_iff c.rp_id p.rp_id).0 e;
          parsed = q;
          made_for = (text_eq_iff ad.rp_id_hash (crypto.sha256 p.rp_id)).0 m;
          touched = t;
          verified = (flags_pass_iff p.require_uv (user_verified ad)).0 v;
          signed = g;
          counter = check_counter-ok p ad.sign_count last checked k;
          person = refl;
          counted = refl;
          reported = refl;
        })

  IsAsserted-verify :
      (r : FidoResult)
      → IsAsserted crypto a c p last canonical r
      → verify crypto a c p last canonical ≡ ok r
  unfolding verify
  IsAsserted-verify r i =
      rw
        (
          (text_eq_iff a.credential_id c.id).1 i.named,
          (text_eq_iff c.rp_id p.rp_id).1 i.enrolled,
          i.parsed,
          (text_eq_iff i.ad.rp_id_hash (crypto.sha256 p.rp_id)).1 i.made_for,
          i.touched,
          (flags_pass_iff p.require_uv (user_verified i.ad)).1 i.verified,
          i.signed,
          ok-check_counter p i.ad.sign_count last r.counter_checked i.counter,
        )
        (λ j. ok (record {
          signer = sym i.person j;
          sign_count = sym i.counted j;
          counter_checked = r.counter_checked;
          user_verified = sym i.reported j;
        }))

  pub verify-iff-IsAsserted :
      (r : FidoResult)
      → (verify crypto a c p last canonical ≡ ok r) ↔ IsAsserted crypto a c p last canonical r
  verify-iff-IsAsserted r = (verify-IsAsserted r, IsAsserted-verify r)

byte_at-lt : (i : ℕ) (b : Text) → All (λ c. c < 256) b → byte_at i b < 256
unfolding byte_at
byte_at-lt i [] h = omega arith
byte_at-lt zero (c ∷ b) (h, _) = h
byte_at-lt (suc i) (c ∷ b) (_, h) = byte_at-lt i b h

-- Data that parses is at least as long as its header, and just as long when no flag says that blocks
-- follow; for bytes, its counter fits 32 bits.
pub parse_auth_data-bounds :
    (b : Text) (ad : AuthData)
    → All (λ c. c < 256) b
    → parse_auth_data b ≡ ok ad
    → (auth_data_min_len ≤ length b)
      × (has_blocks ad ≡ false → length b ≡ auth_data_min_len)
      × (ad.sign_count < 2 ^ 32)
unfolding parse_auth_data uint32_at
parse_auth_data-bounds b ad h q =
    let (l, q1) =
      (guard->>_iff (not (ltb (length b) auth_data_min_len)) (malformed_auth_data (length b)) _).0
        q in
    let (m, q2) =
      (guard->>_iff (not (not (has_blocks (header b)) && not (nat_eq (length b) auth_data_min_len)))
          (malformed_auth_data (length b)) _).0
        q1 in
    subst
      (λ x.
        (auth_data_min_len ≤ length b)
        × (has_blocks x ≡ false → length b ≡ auth_data_min_len)
        × (x.sign_count < 2 ^ 32))
      (ok-injective q2)
      (
        (enough_iff auth_data_min_len (length b)).0 l,
        (λ n. nat_eq→path (length b) auth_data_min_len (
            (flags_pass_iff (not (has_blocks (header b))) (nat_eq (length b) auth_data_min_len)).0 m
              (ap not n))),
        omega (arith, byte_at-lt 33 b h, byte_at-lt 34 b h, byte_at-lt 35 b h, byte_at-lt 36 b h),
      )
