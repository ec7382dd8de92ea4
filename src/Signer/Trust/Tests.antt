-- ===== src/Signer/Trust/Tests.antt =====
-- Two people with a key each, and one person with two.
use arazu.Prelude.{true, [], ◌∷◌, ◌++◌, ok, Text, codes, text_eq}
use arazu.Manifest.Signatures.{Scheme}
use arazu.Signer.{TrustedKey, Keygen, alg_ssh_ed25519}
use arazu.Signer.Trust.{TrustStore}

abbrev sample_scheme : Scheme
sample_scheme = record {
  decode = λ t. ok t;
  key_sum = λ key. codes "id-" ++ key;
  verifies = λ key msg sig. text_eq sig (key ++ msg);
}

-- An ssh-keygen that accepts a signature which is the message.
abbrev sample_keygen : Keygen
sample_keygen = record {
  look_path = ok tt;
  make_temp = ok tt;
  write_allowed = λ t. ok tt;
  write_signature = λ t. ok tt;
  verifies = λ call. ok tt;
}

abbrev sample_key : Text → Text → TrustedKey
sample_key id name = record {
  id = id;
  alg = alg_ssh_ed25519;
  ed25519 = [];
  ssh_line = codes "ssh-ed25519 AAAA";
  signer = name;
  named_signer = true;
}

abbrev sample_store : TrustStore
sample_store =
    sample_key (codes "ka") (codes "alice")
    ∷ sample_key (codes "kb") (codes "bob")
    ∷ sample_key (codes "kc") (codes "alice")
    ∷ []

abbrev sample_file : Text
sample_file = codes "ssh-ed25519 ka m\nssh-ed25519 kb m\n"
