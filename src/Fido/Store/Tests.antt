-- ===== src/Fido/Store/Tests.antt =====
-- Two people with a security key each, whose counters stand at 6 and 0.
use arazu.Prelude.{
  ℕ, ◌≤◌, ◌<◌, ◌^◌, ◌≡◌, ◌↔◌, refl, Bool, true, false, ◌&&◌, ltb, arith, List, [], ◌∷◌, ◌++◌,
  length, All, ok, err, gather, Pairs, Text, codes, text_eq, member, lookup, insert,
}
use arazu.Fido.{
  Crypto, Credential, Policy, Assertion, AuthData, FidoResult, alg_ed25519, alg_es256,
  auth_data_min_len, counter_regression, at_assertion, has_blocks, parse_auth_data, verify,
}
use arazu.Fido.Asserted.{parse_auth_data-bounds}
use arazu.Fido.Store.{
  Store, credential_of, counter_of, or_zero, signers_of, verified_assertion, assertion_turn,
  verify_all, commit, committed,
}
use arazu.Fido.Store.Accepts.{Accepted, verify_all-iff-Accepted}
use arazu.Fido.Store.Counters.{here, later, accept, Reach-le}
use arazu.Fido.Store.Replay.{Spent, verify_all-Spent}

-- 32 bytes, for a key and for every digest.
abbrev bytes : Text
bytes = codes "0123456789abcdef0123456789abcdef"

-- A scheme in which every digest is the same and one text is a signature.
abbrev sample_crypto : Crypto
sample_crypto = record {
  sha256 = λ t. bytes;
  verifies_ed25519 = λ key msg sig. text_eq sig (codes "sig");
  is_p256_point = λ key. true;
  verifies_p256 = λ key msg sig. text_eq sig (codes "sig");
}

abbrev credential : Text → Text → Text → Credential
credential id name alg = record {
  id = id;
  signer = name;
  alg = alg;
  public_key = bytes;
  rp_id = codes "arazu";
}

abbrev sample_policy : Policy
sample_policy = record { rp_id = codes "arazu"; require_uv = true; require_counter = true }

-- The data of an assertion with the flags for presence and verification, and a counter.
abbrev sample_data : ℕ → Text
sample_data n = bytes ++ 5 ∷ 0 ∷ 0 ∷ 0 ∷ n ∷ []

abbrev assertion : Text → ℕ → Assertion
assertion id n = record { credential_id = id; auth_data = sample_data n; signature = codes "sig" }

abbrev reported : Text → ℕ → FidoResult
reported name n = record {
  signer = name;
  sign_count = n;
  counter_checked = true;
  user_verified = true;
}

abbrev sample_store : Store
sample_store = record {
  policy = sample_policy;
  credentials =
      credential (codes "c1") (codes "alice") alg_ed25519
      ∷ credential (codes "c2") (codes "bob") alg_es256
      ∷ [];
  counters = (codes "c1", 6) ∷ [];
}

abbrev sample_assertions : List Assertion
sample_assertions = assertion (codes "c1") 7 ∷ assertion (codes "c2") 1 ∷ []

abbrev sample_results : List FidoResult
sample_results = reported (codes "alice") 7 ∷ reported (codes "bob") 1 ∷ []

sample_run :
    verify_all sample_crypto sample_store (codes "m") sample_assertions 2 ≡ ok sample_results
unfolding verify_all gather assertion_turn verified_assertion credential_of counter_of or_zero
    lookup signers_of member text_eq verify
sample_run = refl

verify_all-iff-Accepted_example :
    (verify_all sample_crypto sample_store (codes "m") sample_assertions 2 ≡ ok sample_results)
    ↔ Accepted sample_crypto sample_store (codes "m") sample_assertions 2 sample_results
verify_all-iff-Accepted_example =
    verify_all-iff-Accepted sample_crypto sample_store (codes "m") sample_assertions 2
      sample_results

verify_all-Spent_example :
    Pairs
      (Spent sample_crypto (committed sample_store sample_results sample_assertions))
      sample_assertions
      sample_results
verify_all-Spent_example =
    verify_all-Spent sample_crypto sample_store
      (committed sample_store sample_results sample_assertions) (codes "m") sample_assertions 2
      sample_results sample_run here

-- The second time, the first counter does not exceed the one that was committed.
sample_replay :
    verify_all sample_crypto
      (committed sample_store sample_results sample_assertions)
      (codes "m")
      sample_assertions
      2
    ≡ err (at_assertion 1 (counter_regression 7 7))
unfolding verify_all gather assertion_turn verified_assertion credential_of counter_of or_zero
    lookup signers_of member text_eq verify commit insert
sample_replay = refl

Reach-le_example :
    counter_of (codes "c1") sample_store.counters
    ≤ counter_of (codes "c1") (committed sample_store sample_results sample_assertions).counters
Reach-le_example =
    Reach-le (codes "c1")
      (later here (accept sample_store (codes "m") sample_assertions 2 sample_results sample_run))

abbrev sample_header : AuthData
sample_header = record { rp_id_hash = bytes; flags = 5; sign_count = 7 }

all_lt : Text → Bool
all_lt [] = true
all_lt (c ∷ b) = ltb c 256 && all_lt b

all_lt-All : (b : Text) → all_lt b ≡ true → All (λ c. c < 256) b
unfolding all_lt
all_lt-All [] h = tt
all_lt-All (c ∷ b) h = (ground arith, all_lt-All b (ground arith))

sample_data-All : All (λ c. c < 256) (sample_data 7)
unfolding all_lt
sample_data-All = all_lt-All (sample_data 7) refl

sample_parse : parse_auth_data (sample_data 7) ≡ ok sample_header
unfolding parse_auth_data
sample_parse = refl

parse_auth_data-bounds_example :
    (auth_data_min_len ≤ length (sample_data 7))
    × (has_blocks sample_header ≡ false → length (sample_data 7) ≡ auth_data_min_len)
    × (sample_header.sign_count < 2 ^ 32)
parse_auth_data-bounds_example =
    parse_auth_data-bounds (sample_data 7) sample_header sample_data-All sample_parse
