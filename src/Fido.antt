-- ===== src/Fido.antt =====
-- pkg/fido/fido.go, signers.go: assertions of security keys over a manifest. A text is a list of
-- bytes; SHA-256, Ed25519 and ECDSA over P-256 are the parameter `Crypto`; the maps of credentials
-- and of counters are lists.
pub mod Store
pub mod Asserted
use arazu.Prelude.{
  ℕ, zero, suc, ◌+◌, ◌*◌, ◌/◌, ◌%◌, ◌^◌, String, Bool, true, false, not, ◌&&◌, ltb, nat_eq,
  if◌then◌else◌, List, [], ◌∷◌, ◌++◌, length, take, Option, none, some, Result, ok, err, Checks,
  ◌>>=◌, ◌>>◌, guard, map_err, some_or, gather, taking, Text, codes, text_eq, member, lookup,
  insert,
}

pub data FidoError : Type 0 where
  unknown_credential : FidoError
  bad_signature : FidoError
  rp_mismatch : FidoError
  no_user_presence : FidoError
  no_user_verification : FidoError
  counter_regression : ℕ → ℕ → FidoError
  counter_unsupported : FidoError
  malformed_auth_data : ℕ → FidoError
  algorithm_mismatch : FidoError
  duplicate_signer : Text → FidoError
  insufficient_signers : ℕ → ℕ → FidoError
  at_assertion : ℕ → FidoError → FidoError

-- What is used of crypto/sha256, crypto/ed25519, crypto/elliptic and crypto/ecdsa: `is_p256_point`
-- says that elliptic.Unmarshal finds a point, `verifies_p256` is of a key, a digest and a signature.
pub record Crypto : Type 0 where
  pub sha256 : Text → Text
  pub verifies_ed25519 : Text → Text → Text → Bool
  pub is_p256_point : Text → Bool
  pub verifies_p256 : Text → Text → Text → Bool

abbrev pub alg_ed25519 : Text
alg_ed25519 = codes "eddsa"

abbrev pub alg_es256 : Text
alg_es256 = codes "es256"

abbrev pub client_data_domain : Text
client_data_domain = codes "arazu-manifest-sig-v1\n"

abbrev pub auth_data_min_len : ℕ
auth_data_min_len = 37

abbrev pub public_key_size : ℕ
public_key_size = 32

pub record Credential : Type 0 where
  pub id : Text
  pub signer : Text
  pub alg : Text
  pub public_key : Text
  pub rp_id : Text

pub record Policy : Type 0 where
  pub rp_id : Text
  pub require_uv : Bool
  pub require_counter : Bool

pub record Assertion : Type 0 where
  pub credential_id : Text
  pub auth_data : Text
  pub signature : Text

pub record AuthData : Type 0 where
  pub rp_id_hash : Text
  pub flags : ℕ
  pub sign_count : ℕ

pub record FidoResult : Type 0 where
  pub signer : Text
  pub sign_count : ℕ
  pub counter_checked : Bool
  pub user_verified : Bool

-- a.Flags & 0x01 != 0, a.Flags & 0x04 != 0, and ad.Flags & 0xc0 != 0, for a byte.
unfoldable pub user_present : AuthData → Bool
user_present ad = nat_eq (ad.flags % 2) 1

unfoldable pub user_verified : AuthData → Bool
user_verified ad = nat_eq (ad.flags / 4 % 2) 1

unfoldable pub has_blocks : AuthData → Bool
has_blocks ad = not (nat_eq (ad.flags / 64 % 4) 0)

-- b[i], for an index in the range.
unfoldable pub byte_at : ℕ → Text → ℕ
byte_at i [] = 0
byte_at zero (c ∷ b) = c
byte_at (suc i) (c ∷ b) = byte_at i b

-- binary.BigEndian.Uint32(b[i:i+4])
unfoldable pub uint32_at : ℕ → Text → ℕ
unfolding byte_at
uint32_at i b =
    byte_at i b * 2 ^ 24
    + byte_at (i + 1) b * 2 ^ 16
    + byte_at (i + 2) b * 2 ^ 8
    + byte_at (i + 3) b

abbrev header : Text → AuthData
header b = record { rp_id_hash = take 32 b; flags = byte_at 32 b; sign_count = uint32_at 33 b }

-- ParseAuthData
unfoldable pub parse_auth_data : Text → Result FidoError AuthData
unfolding uint32_at byte_at take has_blocks
parse_auth_data b = do
  guard (not (ltb (length b) auth_data_min_len)) (malformed_auth_data (length b))
  guard (not (not (has_blocks (header b)) && not (nat_eq (length b) auth_data_min_len)))
      (malformed_auth_data (length b))
  ok (header b)

-- The switch on the counter.
unfoldable pub check_counter : Policy → ℕ → ℕ → Result FidoError Bool
check_counter p count last =
    if ltb last count
    then ok true
    else if nat_eq count 0 && nat_eq last 0
    then (if p.require_counter then err counter_unsupported else ok false)
    else err (counter_regression count last)

module _ (crypto : Crypto) where
  -- ClientDataHash
  unfoldable pub client_data_hash : Text → Text
  client_data_hash canonical = crypto.sha256 (client_data_domain ++ canonical)

  -- verifySignature
  unfoldable pub verify_signature : Credential → Text → Text → Checks FidoError
  unfolding text_eq
  verify_signature c signed sig =
      if text_eq c.alg alg_ed25519
      then (guard (nat_eq (length c.public_key) public_key_size) algorithm_mismatch
          >> guard (crypto.verifies_ed25519 c.public_key signed sig) bad_signature)
      else if text_eq c.alg alg_es256
      then (guard (crypto.is_p256_point c.public_key) algorithm_mismatch
          >> guard (crypto.verifies_p256 c.public_key (crypto.sha256 signed) sig) bad_signature)
      else err algorithm_mismatch

  -- Verify
  unfoldable pub verify : Assertion → Credential → Policy → ℕ → Text → Result FidoError FidoResult
  unfolding client_data_hash verify_signature parse_auth_data check_counter user_present
      user_verified
  verify a c p last canonical = do
    guard (text_eq a.credential_id c.id) unknown_credential
    guard (text_eq c.rp_id p.rp_id) rp_mismatch
    ad ← parse_auth_data a.auth_data
    guard (text_eq ad.rp_id_hash (crypto.sha256 p.rp_id)) rp_mismatch
    guard (user_present ad) no_user_presence
    guard (not (p.require_uv && not (user_verified ad))) no_user_verification
    verify_signature c (a.auth_data ++ client_data_hash canonical) a.signature
    checked ← check_counter p ad.sign_count last
    ok (record {
      signer = c.signer;
      sign_count = ad.sign_count;
      counter_checked = checked;
      user_verified = user_verified ad;
    })
