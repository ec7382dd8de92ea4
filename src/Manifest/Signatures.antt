-- ===== src/Manifest/Signatures.antt =====
-- pkg/manifest/sign.go: the trusted keys and the signatures of a manifest. Base64, SHA-256 with its
-- hexadecimal form and Ed25519 are the parameter `Scheme`; a map is an association list.
pub mod Endorsed
pub mod Tests
use arazu.Prelude.{
  ℕ, ◌*◌, String, Bool, true, false, not, ltb, nat_eq, if◌then◌else◌, List, [], ◌∷◌, length, Option,
  none, some, Result, ok, err, ◌>>=◌, ◌>>◌, guard, map_err, some_or, gather, taking, Text, codes,
  text_eq, has_prefix, member, lookup, insert, fields, trim_space, drop_cr, raw_lines, fits_in,
}

-- What is used of encoding/base64, crypto/sha256 with encoding/hex, and crypto/ed25519.
pub record Scheme : Type 0 where
  pub decode : Text → Result String Text
  pub key_sum : Text → Text
  pub verifies : Text → Text → Text → Bool

abbrev pub public_key_size : ℕ
public_key_size = 32

-- bufio.MaxScanTokenSize
abbrev pub max_line : ℕ
max_line = 64 * 1024

abbrev pub Keys : Type 0
Keys = List (Text × Text)

pub data KeysError : Type 0 where
  unopened : String → KeysError
  wrong_shape : ℕ → KeysError
  undecodable_key : ℕ → String → KeysError
  wrong_size : ℕ → ℕ → KeysError
  wrong_id : ℕ → Text → Text → KeysError
  long_key_line : KeysError
  no_keys : KeysError

pub data SignatureError : Type 0 where
  malformed_line : ℕ → SignatureError
  untrusted_signer : Text → SignatureError
  undecodable_signature : ℕ → String → SignatureError
  not_verified : Text → SignatureError
  duplicate_signer : Text → SignatureError
  long_line : SignatureError
  insufficient_signatures : ℕ → ℕ → SignatureError

-- len(fields) != 2
two_fields : ℕ → List Text → Result KeysError (Text × Text)
two_fields n (id ∷ key ∷ []) = ok (id, key)
two_fields n _ = err (wrong_shape n)

-- len(fields) != 3 || fields[0] != "ed25519"
unfoldable pub three_fields : ℕ → List Text → Result SignatureError (Text × Text)
unfolding text_eq
three_fields n [] = err (malformed_line n)
three_fields n (alg ∷ []) = err (malformed_line n)
three_fields n (alg ∷ id ∷ []) = err (malformed_line n)
three_fields n (alg ∷ id ∷ sig ∷ []) =
    if text_eq alg (codes "ed25519") then ok (id, sig) else err (malformed_line n)
three_fields n (alg ∷ id ∷ sig ∷ more ∷ rest) = err (malformed_line n)

module _ (scheme : Scheme) where
  -- KeyIDFor, which is `key_sum` of the key: the first 8 bytes of its digest in hexadecimal.
  unfoldable pub key_id : Text → Text
  key_id key = scheme.key_sum key

  key_line : ℕ → Text → Result KeysError (Text × Text)
  unfolding two_fields key_id
  key_line n line = do
    (id, coded) ← two_fields n (fields line)
    key ← map_err (undecodable_key n) (scheme.decode coded)
    guard (nat_eq (length key) public_key_size) (wrong_size n (length key))
    guard (text_eq (key_id key) id) (wrong_id n id (key_id key))
    ok (id, key)

  comment_or_key : ℕ → Text → Result KeysError (Option (Text × Text))
  comment_or_key n [] = ok none
  comment_or_key n (c ∷ line) =
      let key = key_line n (c ∷ line) in if nat_eq c b'#' then ok none else taking key

  key_turn : ℕ → List (Text × Text) → Text → Result KeysError (Option (Text × Text))
  key_turn n seen line =
      guard (fits_in max_line line) long_key_line >> comment_or_key n (trim_space (drop_cr line))

  -- keys[KeyIDFor(pub)] = pub, for each key in turn.
  put_all : List (Text × Text) → Keys → Keys
  unfolding insert
  put_all [] m = m
  put_all ((id, key) ∷ rest) m = put_all rest (insert (key_id key) key m)

  some_keys : Keys → Result KeysError Keys
  some_keys [] = err no_keys
  some_keys (k ∷ ks) = ok (k ∷ ks)

  -- LoadPublicKeys, of what is read of the file.
  pub load_public_keys : Result String Text → Result KeysError Keys
  load_public_keys file = do
    text ← map_err unopened file
    keys ← gather key_turn 1 [] (raw_lines text)
    some_keys (put_all keys [])

module _ (scheme : Scheme) (canonical : Text) (trusted : Keys) where
  signature_line : ℕ → List Text → Text → Result SignatureError Text
  signature_line n seen line = do
    (id, coded) ← three_fields n (fields line)
    key ← some_or (untrusted_signer id) (lookup id trusted)
    sig ← map_err (undecodable_signature n) (scheme.decode coded)
    guard (scheme.verifies key canonical sig) (not_verified id)
    guard (not (member id seen)) (duplicate_signer id)
    ok id

  blank_or_signature : ℕ → List Text → Text → Result SignatureError (Option Text)
  blank_or_signature n seen [] = ok none
  blank_or_signature n seen (c ∷ line) = taking (signature_line n seen (c ∷ line))

  -- One turn of the loop of VerifySignatures.
  signature_turn : ℕ → List Text → Text → Result SignatureError (Option Text)
  signature_turn n seen line =
      guard (fits_in max_line line) long_line
      >> blank_or_signature n seen (trim_space (drop_cr line))

  -- VerifySignatures
  pub verify_signatures : Text → ℕ → Result SignatureError (List Text)
  verify_signatures sig_file min_distinct = do
    order ← gather signature_turn 1 [] (raw_lines sig_file)
    guard (not (ltb (length order) min_distinct))
        (insufficient_signatures (length order) min_distinct)
    ok order
