-- ===== src/Manifest/Signatures/Tests.antt =====
-- Signature files of the sample keys.
use arazu.Prelude.{
  ◌≡◌, ◌↔◌, refl, ok, err, gather, codes, text_eq, member, lookup, insert, fields, trim_space,
  drop_cr, raw_lines, push, fits_in, byte_length, take,
}
use arazu.Manifest.Signatures.{
  untrusted_signer, duplicate_signer, two_fields, key_id, key_line, comment_or_key, key_turn,
  put_all, some_keys, load_public_keys, three_fields, signature_line, blank_or_signature,
  signature_turn, verify_signatures,
}
use arazu.Manifest.Signatures.Endorsed.{Endorsed, verify_signatures-iff-Endorsed}
use arazu.Manifest.Samples.{sample_scheme, sample_keys, key_file, sig_3, sig_4, signer_ids}

pub keys_load : load_public_keys sample_scheme (ok key_file) ≡ ok sample_keys
unfolding load_public_keys gather key_turn comment_or_key key_line two_fields key_id put_all
    some_keys insert text_eq fields trim_space drop_cr raw_lines push fits_in byte_length take
keys_load = refl

pub signed_3 : verify_signatures sample_scheme (codes "3") sample_keys sig_3 2 ≡ ok signer_ids
unfolding verify_signatures gather signature_turn blank_or_signature signature_line three_fields
    text_eq member lookup fields trim_space drop_cr raw_lines push fits_in byte_length take
signed_3 = refl

pub signed_4 : verify_signatures sample_scheme (codes "4") sample_keys sig_4 2 ≡ ok signer_ids
unfolding verify_signatures gather signature_turn blank_or_signature signature_line three_fields
    text_eq member lookup fields trim_space drop_cr raw_lines push fits_in byte_length take
signed_4 = refl

-- One key that signs twice is not two keys.
same_key_twice :
    verify_signatures sample_scheme
      (codes "3")
      sample_keys
      (codes "ed25519 idA A3\ned25519 idA A3\n")
      2
    ≡ err (duplicate_signer (codes "idA"))
unfolding verify_signatures gather signature_turn blank_or_signature signature_line three_fields
    text_eq member lookup fields trim_space drop_cr raw_lines push fits_in byte_length take
same_key_twice = refl

-- A good signature does not make up for one by a key that is not trusted.
unknown_key :
    verify_signatures sample_scheme
      (codes "3")
      sample_keys
      (codes "ed25519 idA A3\ned25519 idB B3\ned25519 idC C3\n")
      2
    ≡ err (untrusted_signer (codes "idC"))
unfolding verify_signatures gather signature_turn blank_or_signature signature_line three_fields
    text_eq member lookup fields trim_space drop_cr raw_lines push fits_in byte_length take
unknown_key = refl

verify_signatures-iff-Endorsed_example :
    (verify_signatures sample_scheme (codes "3") sample_keys sig_3 2 ≡ ok signer_ids)
    ↔ Endorsed sample_scheme (codes "3") sample_keys sig_3 2 signer_ids
verify_signatures-iff-Endorsed_example =
    verify_signatures-iff-Endorsed sample_scheme (codes "3") sample_keys sig_3 2 signer_ids
