-- ===== src/Signer/Trust.antt =====
-- pkg/signer/trust.go: the store of provisioned keys, which is an association list in the place of
-- the map, and `VerifyAll`.
pub mod People
mod Tests
use arazu.Prelude.{
  ℕ, suc, String, Bool, true, false, not, ◌||◌, ltb, nat_eq, if◌then◌else◌, List, [], ◌∷◌, ◌++◌,
  length, Option, none, some, Result, ok, err, ◌>>=◌, ◌>>◌, guard, map_err, some_or, gather, taking,
  Text, codes, text_eq, has_prefix, member, fields, trim_space, drop_cr, raw_lines, fits_in,
}
use arazu.Manifest.Signatures.{Scheme, max_line, public_key_size}
use arazu.Signer.{
  Signature, TrustedKey, Keygen, SignerError, alg_ed25519, alg_ssh_ed25519, alg_sk_ed25519,
  unopened, malformed, undecodable, wrong_size, wrong_id, untrusted_signer, duplicate_key,
  duplicate_person, provisioned_twice, no_keys, long_line, insufficient_signatures, at_line,
  key_id_for_ssh, parse_signature, signer_identity, hardware_backed, verify,
}

abbrev pub TrustStore : Type 0
TrustStore = List TrustedKey

-- TrustStore.Get
unfoldable pub get : TrustStore → Text → Option TrustedKey
unfolding text_eq
get [] id = none
get (k ∷ ks) id = let later = get ks id in if text_eq k.id id then some k else later

-- TrustStore.UnnamedCount
pub unnamed_count : TrustStore → ℕ
unnamed_count [] = 0
unnamed_count (k ∷ ks) = let n = unnamed_count ks in if k.named_signer then n else suc n

-- TrustStore.HardwareBackedCount
pub hardware_backed_count : TrustStore → ℕ
unfolding hardware_backed
hardware_backed_count [] = 0
hardware_backed_count (k ∷ ks) =
    let n = hardware_backed_count ks in if hardware_backed k then suc n else n

-- strings.Join(rest, " ")
join_words : List Text → Text
join_words [] = []
join_words (w ∷ []) = w
join_words (w ∷ v ∷ ws) = w ++ codes " " ++ join_words (v ∷ ws)

name_or_id : Text → Text → Text × Bool
name_or_id [] id = (codes "keyid:" ++ id, false)
name_or_id (c ∷ name) id = (c ∷ name, true)

-- signerName
pub signer_name : List Text → Text → Text × Bool
unfolding join_words name_or_id
signer_name rest id = name_or_id (trim_space (join_words rest)) id

pub seen_keys : List TrustedKey → List Text
seen_keys [] = []
seen_keys (k ∷ ks) = k.id ∷ seen_keys ks

pub seen_signers : List TrustedKey → List Text
unfolding signer_identity
seen_signers [] = []
seen_signers (k ∷ ks) = signer_identity k ∷ seen_signers ks

module _ (scheme : Scheme) where
  -- The keys of ssh-keygen's .pub files.
  ssh_key : Text → Text → List Text → Result SignerError TrustedKey
  ssh_key line kind [] = err malformed
  ssh_key line kind (blob ∷ rest) = do
    id ← key_id_for_ssh scheme line
    ok (record {
      id = id;
      alg = if has_prefix kind (codes "sk-") then alg_sk_ed25519 else alg_ssh_ed25519;
      ed25519 = [];
      ssh_line = kind ++ codes " " ++ blob;
      signer = (signer_name rest id).0;
      named_signer = (signer_name rest id).1;
    })

  -- A software key, with its name when the line has one.
  software_key : Text → Text → List Text → Result SignerError TrustedKey
  software_key id coded names = do
    raw ← map_err undecodable (scheme.decode coded)
    guard (nat_eq (length raw) public_key_size) (wrong_size (length raw))
    guard (text_eq (scheme.key_sum raw) id) (wrong_id id (scheme.key_sum raw))
    ok (record {
      id = scheme.key_sum raw;
      alg = alg_ed25519;
      ed25519 = raw;
      ssh_line = [];
      signer = (signer_name names (scheme.key_sum raw)).0;
      named_signer = (signer_name names (scheme.key_sum raw)).1;
    })

  by_count : Text → List Text → Result SignerError TrustedKey
  by_count id [] = err malformed
  by_count id (coded ∷ []) = software_key id coded []
  by_count id (coded ∷ name ∷ []) = software_key id coded (name ∷ [])
  by_count id (coded ∷ name ∷ more ∷ rest) = err malformed

  -- The switch of parseTrustLine. A line that is not blank has a first field.
  by_kind : Text → List Text → Result SignerError TrustedKey
  by_kind line [] = err malformed
  by_kind line (kind ∷ rest) =
      if has_prefix kind (codes "sk-ssh-ed25519") || has_prefix kind (codes "ssh-ed25519")
      then ssh_key line kind rest
      else by_count kind rest

  -- parseTrustLine
  pub parse_trust_line : Text → Result SignerError TrustedKey
  parse_trust_line line = by_kind line (fields line)

  fresh_key : ℕ → List TrustedKey → Text → Result SignerError TrustedKey
  fresh_key n seen line = do
    key ← map_err (at_line n) (parse_trust_line line)
    guard (not (member key.id (seen_keys seen))) (at_line n (provisioned_twice key.id))
    ok key

  comment_or_key : ℕ → List TrustedKey → Text → Result SignerError (Option TrustedKey)
  comment_or_key n seen [] = ok none
  comment_or_key n seen (c ∷ line) =
      if nat_eq c b'#' then ok none else taking (fresh_key n seen (c ∷ line))

  trust_turn : ℕ → List TrustedKey → Text → Result SignerError (Option TrustedKey)
  trust_turn n seen line =
      guard (fits_in max_line line) long_line >> comment_or_key n seen (trim_space (drop_cr line))

  some_keys : TrustStore → Result SignerError TrustStore
  some_keys [] = err no_keys
  some_keys (k ∷ ks) = ok (k ∷ ks)

  -- LoadTrustStore, of what is read of the file.
  pub load_trust_store : Result String Text → Result SignerError TrustStore
  load_trust_store file = do
    text ← map_err unopened file
    keys ← gather trust_turn 1 [] (raw_lines text)
    some_keys keys

module _ (keygen : Keygen) (scheme : Scheme) (msg : Text) (trust : TrustStore) where
  -- One turn of the loop of VerifyAll, for a line that is not blank.
  pub signed_line : ℕ → List TrustedKey → Text → Result SignerError TrustedKey
  signed_line n seen line = do
    sig ← map_err (at_line n) (parse_signature scheme line)
    key ← some_or (untrusted_signer sig.key_id) (get trust sig.key_id)
    verify keygen scheme msg sig key
    guard (not (member sig.key_id (seen_keys seen))) (duplicate_key sig.key_id)
    guard (not (member (signer_identity key) (seen_signers seen)))
        (duplicate_person (signer_identity key))
    ok key

  pub blank_or_signed : ℕ → List TrustedKey → Text → Result SignerError (Option TrustedKey)
  blank_or_signed n seen [] = ok none
  blank_or_signed n seen (c ∷ line) = taking (signed_line n seen (c ∷ line))

  pub signer_turn : ℕ → List TrustedKey → Text → Result SignerError (Option TrustedKey)
  signer_turn n seen line =
      guard (fits_in max_line line) long_line >> blank_or_signed n seen (trim_space (drop_cr line))

  -- VerifyAll. A key that is taken adds one name to seenSigner.
  pub verify_all : Text → ℕ → Result SignerError (List TrustedKey)
  verify_all sig_file min_distinct = do
    signers ← gather signer_turn 1 [] (raw_lines sig_file)
    guard (not (ltb (length signers) min_distinct))
        (insufficient_signatures (length signers) min_distinct)
    ok signers
