-- ===== src/Signer/Trust/People.antt =====
-- What `VerifyAll` accepts: people, each once, with one key each.
use arazu.Prelude.{
  ℕ, ◌≤◌, true, false, ◌≡◌, List, [], length, some, ok, Matched, FreshFrom, Text, member,
  trim_space, drop_cr, raw_lines, fits_in,
}
use arazu.Manifest.Signatures.{Scheme, max_line}
use arazu.Manifest.Signatures.Endorsed.{IsBlank}
use arazu.Signer.{Signature, TrustedKey, Keygen, parse_signature, signer_identity, verify}
use arazu.Signer.Trust.{TrustStore, get, seen_keys, seen_signers}

-- Neither the key nor the person stands among those that were taken before.
abbrev pub IsNew : List TrustedKey → TrustedKey → Type 0
IsNew seen key =
    (member key.id (seen_keys seen) ≡ false)
    × (member (signer_identity key) (seen_signers seen) ≡ false)

module _ (keygen : Keygen) (scheme : Scheme) (msg : Text) (trust : TrustStore) where
  -- A trimmed line is a signature over the message by a provisioned key.
  abbrev SignsTrimmed : Text → TrustedKey → Type 0
  SignsTrimmed line key =
      (sig : Signature) × (parse_signature scheme line ≡ ok sig)
      × (get trust sig.key_id ≡ some key)
      × (verify keygen scheme msg sig key ≡ ok tt)

  abbrev pub Signs : Text → TrustedKey → Type 0
  Signs line key = (fits_in max_line line ≡ true) × SignsTrimmed (trim_space (drop_cr line)) key

  -- Every line is blank or signs, the keys are those of the lines in their order, no key and no
  -- person comes twice, and they are enough.
  pub record Approved (sig_file : Text) (min_distinct : ℕ) (signers : List TrustedKey)
      : Type 0 where
    pub lines : Matched IsBlank Signs (raw_lines sig_file) signers
    pub distinct : FreshFrom IsNew [] signers
    pub enough : min_distinct ≤ length signers
