-- ===== src/Ingress/Tests.antt =====
-- Version 3 of a bundle is accepted, and then version 4 of it.
use arazu.Prelude.{
  ℕ, ◌≤◌, ◌<◌, ◌≡◌, ◌≢◌, ◌↔◌, refl, sym, subst, true, arith, [], ◌∷◌, none, ok, Text, codes,
  text_eq, lookup, insert, trim_space,
}
use arazu.AuditLog.{present}
use arazu.ContentStore.{content_root}
use arazu.ContentStore.Tests.{verify_sample}
use arazu.ContentStore.Accepts.{verify_against-iff-Matches}
use arazu.Manifest.{Manifest, in_order}
use arazu.Manifest.Canonical.{parse-iff-IsParsed}
use arazu.Manifest.Signatures.Endorsed.{verify_signatures-iff-Endorsed}
use arazu.Manifest.Samples.{
  bundle_manifest, sample_json, sample_scheme, sample_keys, key_file, sample_tree, sig_3, sig_4,
  signer_ids, sample_reads,
}
use arazu.Manifest.Tests.{parse_3, parse_4}
use arazu.Manifest.Signatures.Tests.{keys_load, signed_3, signed_4}
use arazu.Ingress.Uint.{parse_uint, format_uint}
use arazu.Ingress.{
  Env, Run, World, written, logged, blank_decision, version_file, underscored, version_text,
  stored_version, or_state_error, last_accepted, signature_text, verify, accept, command,
  allow_or_default,
}
use arazu.Ingress.Vetted.{Vetted, verify-iff-Vetted}
use arazu.Ingress.Exit.{Accepts, Advances, Accepts-Advances, command-iff-Accepts}
use arazu.Ingress.Versions.{
  Versions, LastIs, accept-last_accepted, Step, one_run, here, later, last_accepted-grows,
  accepted-newer,
}

abbrev sample_env : Env
sample_env = record { json = sample_json; scheme = sample_scheme; sum = λ t. "root" }

abbrev run_of : Text → Text → Run
run_of manifest sig = record {
  has_flags = true;
  allow = [];
  manifest_file = ok manifest;
  trusted_file = ok key_file;
  sig_file = present sig;
  tree = sample_tree;
  state_error = none;
  make_state = ok tt;
  write = written;
  logging = logged;
}

abbrev run_3 : Run
run_3 = run_of (codes "3") sig_3

abbrev run_4 : Run
run_4 = run_of (codes "4") sig_4

abbrev manifest_3 : Manifest
manifest_3 = in_order (bundle_manifest 3)

abbrev manifest_4 : Manifest
manifest_4 = in_order (bundle_manifest 4)

abbrev empty_world : World
empty_world = record { versions = []; events = [] }

run_3-Vetted : Vetted sample_env run_3 [] manifest_3
unfolding signature_text last_accepted or_state_error stored_version lookup allow_or_default
run_3-Vetted = record {
  canonical = codes "3";
  trusted = sample_keys;
  sig_file = sig_3;
  signers = signer_ids;
  last = 0;
  manifest_read = refl;
  parsed = (parse-iff-IsParsed sample_json (codes "3") manifest_3).0 parse_3;
  keys_read = keys_load;
  signatures_read = refl;
  endorsed =
      (verify_signatures-iff-Endorsed sample_scheme (codes "3") sample_keys sig_3 2 signer_ids).0
        signed_3;
  last_read = refl;
  newer_version = omega arith;
  matching =
      (verify_against-iff-Matches sample_tree manifest_3.files (codes "content/" ∷ [])).0
        verify_sample;
}

abbrev versions_3 : Versions
versions_3 = insert (version_file "b1") (version_text manifest_3) []

versions_3-LastIs : LastIs versions_3 (version_file "b1") 3
unfolding stored_version lookup insert text_eq version_file underscored version_text format_uint
    parse_uint trim_space
versions_3-LastIs = refl

run_4-Vetted : Vetted sample_env run_4 versions_3 manifest_4
unfolding signature_text last_accepted or_state_error allow_or_default
run_4-Vetted = record {
  canonical = codes "4";
  trusted = sample_keys;
  sig_file = sig_4;
  signers = signer_ids;
  last = 3;
  manifest_read = refl;
  parsed = (parse-iff-IsParsed sample_json (codes "4") manifest_4).0 parse_4;
  keys_read = keys_load;
  signatures_read = refl;
  endorsed =
      (verify_signatures-iff-Endorsed sample_scheme (codes "4") sample_keys sig_4 2 signer_ids).0
        signed_4;
  last_read = versions_3-LastIs;
  newer_version = omega arith;
  matching =
      (verify_against-iff-Matches sample_tree manifest_4.files (codes "content/" ∷ [])).0
        verify_sample;
}

run_3-Accepts : Accepts sample_env run_3 empty_world manifest_3
run_3-Accepts = record {
  flags = refl;
  vetted = run_3-Vetted;
  state_made = refl;
  version_written = refl;
  recordable = λ h. cc;
}

command-iff-Accepts_example : ((command sample_env run_3 empty_world).code ≡ 0) ↔ (
    (m : Manifest) × Accepts sample_env run_3 empty_world m
    × Advances empty_world (command sample_env run_3 empty_world).world m)
command-iff-Accepts_example = command-iff-Accepts sample_env run_3 empty_world

verify-iff-Vetted_example :
    ((verify sample_env run_3 [] blank_decision).0 ≡ ok (manifest_3, "root")) ↔ (
      Vetted sample_env run_3 [] manifest_3
      × ("root" ≡ content_root sample_env.sum manifest_3.files))
verify-iff-Vetted_example = verify-iff-Vetted sample_env run_3 [] blank_decision manifest_3 "root"

accept-last_accepted_example :
    (version_file "b1" ≡ version_file manifest_3.bundle_id
      → last_accepted none
          (accept run_3 manifest_3 "root" blank_decision empty_world).world.versions
          "b1"
        ≡ ok 3)
    × (version_file "b1" ≢ version_file manifest_3.bundle_id
        → last_accepted none
            (accept run_3 manifest_3 "root" blank_decision empty_world).world.versions
            "b1"
          ≡ last_accepted none [] "b1")
accept-last_accepted_example =
    accept-last_accepted run_3 manifest_3 "root" blank_decision empty_world "b1" refl refl
      (omega arith)

step_3 : Step sample_env empty_world (command sample_env run_3 empty_world).world
step_3 = one_run run_3 empty_world (λ t e h. cc)

last_accepted-grows_example :
    (k : ℕ) × LastIs (command sample_env run_3 empty_world).world.versions (version_file "b1") k
    × (0 ≤ k)
unfolding stored_version lookup
last_accepted-grows_example =
    last_accepted-grows {env = sample_env} sample_reads (version_file "b1") 0 (later here step_3)
      refl

run_3-Advances : Advances empty_world (command sample_env run_3 empty_world).world manifest_3
run_3-Advances = Accepts-Advances sample_env run_3 empty_world manifest_3 run_3-Accepts

run_4-Accepts : Accepts sample_env run_4 (command sample_env run_3 empty_world).world manifest_4
run_4-Accepts = record {
  flags = refl;
  vetted = subst (λ v. Vetted sample_env run_4 v manifest_4) (sym run_3-Advances) run_4-Vetted;
  state_made = refl;
  version_written = refl;
  recordable = λ h. cc;
}

accepted-newer_example : 3 < 4
accepted-newer_example =
    accepted-newer {env = sample_env} sample_reads run_3 run_4 empty_world
      (command sample_env run_3 empty_world).world manifest_3 manifest_4 run_3-Accepts here refl
      run_4-Accepts
