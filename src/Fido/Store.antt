-- ===== src/Fido/Store.antt =====
-- pkg/fido/signers.go: the provisioned credentials and the highest counter seen of each.
mod Tests
pub mod Accepts
pub mod Counters
pub mod Replay
use arazu.Prelude.{
  ℕ, String, Bool, true, false, not, ◌||◌, ltb, if◌then◌else◌, List, [], ◌∷◌, length, Option, none,
  some, Result, ok, err, ◌>>=◌, ◌>>◌, guard, map_err, some_or, gather, taking, Text, text_eq,
  member, lookup, insert,
}
use arazu.Fido.{
  FidoError, Crypto, Credential, Policy, Assertion, FidoResult, unknown_credential,
  duplicate_signer, insufficient_signers, at_assertion, verify,
}

abbrev pub Counters : Type 0
Counters = List (Text × ℕ)

-- Store; its `byID` is a look-up in the credentials.
pub record Store : Type 0 where
  pub policy : Policy
  pub credentials : List Credential
  pub counters : Counters

pub data StoreError : Type 0 where
  unreadable : String → StoreError
  undecodable : String → StoreError
  incomplete_credential : Text → StoreError
  provisioned_twice : Text → StoreError
  no_credentials : StoreError

-- s.byID[id]
pub credential_of : Text → List Credential → Option Credential
credential_of id [] = none
credential_of id (c ∷ cs) =
    let later = credential_of id cs in if text_eq c.id id then some c else later

is_empty : Text → Bool
is_empty [] = true
is_empty (c ∷ t) = false

credential_ids : List Credential → List Text
credential_ids [] = []
credential_ids (c ∷ cs) = c.id ∷ credential_ids cs

provision_turn : ℕ → List Credential → Credential → Result StoreError (Option Credential)
provision_turn n seen c = do
  guard (not (is_empty c.id || is_empty c.signer)) (incomplete_credential c.id)
  guard (not (member c.id (credential_ids seen))) (provisioned_twice c.id)
  ok (some c)

some_credentials : Store → List Credential → Result StoreError Store
some_credentials s [] = err no_credentials
some_credentials s (c ∷ cs) = ok (record s { credentials = c ∷ cs })

-- LoadStore, of what is read of the file and what json.Unmarshal makes of it.
pub load_store : (Text → Result String Store) → Result String Text → Result StoreError Store
load_store unmarshal file = do
  b ← map_err unreadable file
  s ← map_err undecodable (unmarshal b)
  credentials ← gather provision_turn 1 [] s.credentials
  some_credentials s credentials

or_zero : Option ℕ → ℕ
or_zero none = 0
or_zero (some n) = n

-- s.Counters[id], which is 0 where there is none.
pub counter_of : Text → Counters → ℕ
counter_of id counters = or_zero (lookup id counters)

pub signers_of : List FidoResult → List Text
signers_of [] = []
signers_of (r ∷ rs) = r.signer ∷ signers_of rs

module _ (crypto : Crypto) (s : Store) (canonical : Text) where
  pub verified_assertion : ℕ → List FidoResult → Assertion → Result FidoError FidoResult
  verified_assertion n seen a = do
    c ← some_or unknown_credential (credential_of a.credential_id s.credentials)
    res ←
        map_err (at_assertion n)
          (verify crypto a c s.policy (counter_of a.credential_id s.counters) canonical)
    guard (not (member res.signer (signers_of seen))) (duplicate_signer res.signer)
    ok res

  pub assertion_turn : ℕ → List FidoResult → Assertion → Result FidoError (Option FidoResult)
  assertion_turn n seen a = taking (verified_assertion n seen a)

  -- VerifyAll. A result that is taken adds one name to `seen`.
  pub verify_all : List Assertion → ℕ → Result FidoError (List FidoResult)
  verify_all assertions min_distinct = do
    results ← gather assertion_turn 1 [] assertions
    guard (not (ltb (length results) min_distinct))
        (insufficient_signers (length results) min_distinct)
    ok results

-- Commit, on the counters.
pub commit : List FidoResult → List Assertion → Counters → Counters
commit [] assertions counters = counters
commit (r ∷ rs) [] counters = counters
commit (r ∷ rs) (a ∷ rest) counters =
    commit rs rest
      (if r.counter_checked then insert a.credential_id r.sign_count counters else counters)

abbrev pub committed : Store → List FidoResult → List Assertion → Store
committed s results assertions = record s { counters = commit results assertions s.counters }
