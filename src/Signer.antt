-- ===== src/Signer.antt =====
-- pkg/signer/signer.go, trust.go, ssh.go: signatures by software keys and security keys, checked
-- against the provisioned keys and counted by person. Base64, SHA-256 with its hexadecimal form and
-- Ed25519 are the `Scheme` of the manifest; ssh-keygen and the files written for it are `Keygen`.
pub mod Trust
use arazu.Prelude.{
  ℕ, String, Bool, true, false, not, ◌||◌, ltb, nat_eq, if◌then◌else◌, List, [], ◌∷◌, ◌++◌, length,
  Option, none, some, Result, ok, err, Checks, ◌>>=◌, ◌>>◌, guard, map_err, some_or, gather, taking,
  Text, codes, text_eq, has_prefix, member, fields, trim_space, drop_cr, raw_lines, fits_in,
}
use arazu.Manifest.Signatures.{Scheme, max_line, public_key_size}

abbrev pub alg_ed25519 : Text
alg_ed25519 = codes "ed25519"

abbrev pub alg_ssh_ed25519 : Text
alg_ssh_ed25519 = codes "ssh-ed25519"

abbrev pub alg_sk_ed25519 : Text
alg_sk_ed25519 = codes "sk-ssh-ed25519"

abbrev pub namespace : Text
namespace = codes "arazu-manifest"

pub record Signature : Type 0 where
  pub alg : Text
  pub key_id : Text
  pub payload : Text

pub record TrustedKey : Type 0 where
  pub id : Text
  pub alg : Text
  pub ed25519 : Text
  pub ssh_line : Text
  pub signer : Text
  pub named_signer : Bool

pub data SignerError : Type 0 where
  unopened : String → SignerError
  malformed : SignerError
  unknown_algorithm : Text → SignerError
  undecodable : String → SignerError
  wrong_size : ℕ → SignerError
  wrong_id : Text → Text → SignerError
  verify_failed : Text → SignerError
  keygen_failed : String → SignerError
  untrusted_signer : Text → SignerError
  duplicate_key : Text → SignerError
  duplicate_person : Text → SignerError
  provisioned_twice : Text → SignerError
  no_keys : SignerError
  long_line : SignerError
  insufficient_signatures : ℕ → ℕ → SignerError
  at_line : ℕ → SignerError → SignerError

-- What `ssh-keygen -Y verify` is given: the allowed signers, -I, -n, -s and its input.
pub record KeygenCall : Type 0 where
  pub allowed : Text
  pub identity : Text
  pub name_space : Text
  pub signature : Text
  pub message : Text

-- ssh-keygen, and the operating system on the way to it.
pub record Keygen : Type 0 where
  pub look_path : Checks String
  pub make_temp : Checks String
  pub write_allowed : Text → Checks String
  pub write_signature : Text → Checks String
  pub verifies : KeygenCall → Checks String

-- KeyIDForSSH
second_field : List Text → Result SignerError Text
second_field [] = err malformed
second_field (kind ∷ []) = err malformed
second_field (kind ∷ blob ∷ rest) = ok blob

pub key_id_for_ssh : Scheme → Text → Result SignerError Text
unfolding second_field
key_id_for_ssh scheme ssh_line = do
  blob ← second_field (fields (trim_space ssh_line))
  raw ← map_err undecodable (scheme.decode blob)
  ok (scheme.key_sum raw)

-- len(fields) != 3
unfoldable pub three_parts : List Text → Result SignerError (Text × Text × Text)
three_parts [] = err malformed
three_parts (a ∷ []) = err malformed
three_parts (a ∷ b ∷ []) = err malformed
three_parts (a ∷ b ∷ c ∷ []) = ok (a, b, c)
three_parts (a ∷ b ∷ c ∷ d ∷ rest) = err malformed

unfoldable pub is_known : Text → Bool
unfolding text_eq
is_known alg = text_eq alg alg_ed25519 || text_eq alg alg_ssh_ed25519 || text_eq alg alg_sk_ed25519

-- ParseSignature
pub parse_signature : Scheme → Text → Result SignerError Signature
unfolding is_known
parse_signature scheme line = do
  (alg, id, coded) ← three_parts (fields (trim_space line))
  guard (is_known alg) (unknown_algorithm alg)
  payload ← map_err undecodable (scheme.decode coded)
  ok (record { alg = alg; key_id = id; payload = payload })

-- TrustedKey.SignerIdentity
unfoldable pub signer_identity : TrustedKey → Text
signer_identity k = named k.signer
  where
    named : Text → Text
    named [] = codes "keyid:" ++ k.id
    named (c ∷ name) = c ∷ name

-- TrustedKey.HardwareBacked
pub hardware_backed : TrustedKey → Bool
hardware_backed k = text_eq k.alg alg_sk_ed25519

module _ (keygen : Keygen) where
  -- verifySSH
  pub verify_ssh : Text → Signature → TrustedKey → Checks SignerError
  verify_ssh msg sig key = map_err keygen_failed do
    keygen.look_path
    keygen.make_temp
    keygen.write_allowed allowed
    keygen.write_signature sig.payload
    keygen.verifies (record {
      allowed = allowed;
      identity = key.id;
      name_space = namespace;
      signature = sig.payload;
      message = msg;
    })
    where
      allowed : Text
      allowed = key.id ++ codes " " ++ trim_space key.ssh_line ++ codes "\n"

  -- The switch of Verify.
  verify_by : Scheme → Text → Signature → TrustedKey → Checks SignerError
  verify_by scheme msg sig key =
      if text_eq sig.alg alg_ed25519
      then (guard (nat_eq (length key.ed25519) public_key_size) (verify_failed key.id)
          >> guard (scheme.verifies key.ed25519 msg sig.payload) (verify_failed key.id))
      else if text_eq sig.alg alg_ssh_ed25519 || text_eq sig.alg alg_sk_ed25519
      then verify_ssh msg sig key
      else err (unknown_algorithm sig.alg)

  -- Verify
  pub verify : Scheme → Text → Signature → TrustedKey → Checks SignerError
  verify scheme msg sig key = do
    guard (text_eq sig.key_id key.id) (verify_failed key.id)
    guard (text_eq sig.alg key.alg) (verify_failed key.id)
    verify_by scheme msg sig key
