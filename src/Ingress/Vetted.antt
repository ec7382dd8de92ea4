-- ===== src/Ingress/Vetted.antt =====
-- What the ingress gate has checked of a bundle that it accepts.
use arazu.Prelude.{
  ℕ, ◌<◌, String, ltb, ltb→lt, lt→ltb, ◌≡◌, ◌↔◌, refl, ap, sym, subst, ◌∙◌, List, Result, ok, err,
  ok-injective, map_err, map_err_iff, guard_iff, Text,
}
use arazu.ContentStore.{verify_against, content_root}
use arazu.ContentStore.Accepts.{Matches, verify_against-iff-Matches}
use arazu.Manifest.{Manifest, parse}
use arazu.Manifest.Canonical.{IsParsed, parse-iff-IsParsed}
use arazu.Manifest.Signatures.{Keys, load_public_keys, verify_signatures}
use arazu.Manifest.Signatures.Endorsed.{Endorsed, verify_signatures-iff-Endorsed}
use arazu.Ingress.{
  required_signers, Env, Run, Refusal, Decision, Checking, manifest_absent, manifest_refused,
  keys_refused, signatures_refused, content_refused, rollback, go_on, ◌>>=◌, noted, set,
  last_accepted, signature_text, newer, allow_or_default, signed_by, check_content,
  check_signatures, verify,
}

-- The manifest parses and is endorsed by two keys, its version is newer than the last accepted one,
-- and the directory is what it describes.
pub record Vetted (env : Env) (run : Run) (versions : List (Text × Text)) (m : Manifest)
    : Type 0 where
  pub canonical : Text
  pub trusted : Keys
  pub sig_file : Text
  pub signers : List Text
  pub last : ℕ
  pub manifest_read : run.manifest_file ≡ ok canonical
  pub parsed : IsParsed env.json canonical m
  pub keys_read : load_public_keys env.scheme run.trusted_file ≡ ok trusted
  pub signatures_read : signature_text run.sig_file ≡ ok sig_file
  pub endorsed : Endorsed env.scheme canonical trusted sig_file required_signers signers
  pub last_read : last_accepted run.state_error versions m.bundle_id ≡ ok last
  pub newer_version : last < m.version
  pub matching : Matches run.tree m.files (allow_or_default run.allow)

module _ {A B : Type 0} where
  go_on-ok :
      (r : Result Refusal A) (f : A → Checking B) (d : Decision) {b : B}
      → (go_on r f d).0 ≡ ok b
      → (a : A) × (r ≡ ok a) × ((f a d).0 ≡ ok b)
  unfolding go_on
  go_on-ok (ok a) f d h = (a, refl, h)
  go_on-ok (err e) f d h = cc

  -- A noted call that let the function go on.
  noted-ok :
      (name : String) (r : Result Refusal A) (f : A → Checking B) (d : Decision) {b : B}
      → ((noted name r >>= f) d).0 ≡ ok b
      → (a : A) × (d' : Decision) × (r ≡ ok a) × ((f a d').0 ≡ ok b)
  unfolding ◌>>=◌ noted
  noted-ok name r f d h =
      let d' = (noted name r d).1 in let (a, e, g) = go_on-ok r f d' h in (a, d', e, g)

module _ {B : Type 0} where
  set-ok :
      (g : Decision → Decision) (f : Unit {0} → Checking B) (d : Decision) {b : B}
      → ((set g >>= f) d).0 ≡ ok b
      → (f tt (g d)).0 ≡ ok b
  unfolding ◌>>=◌ set go_on
  set-ok g f d h = h

newer-ok :
    (v : ℕ) (r : Result Refusal ℕ) → newer v r ≡ ok tt → (last : ℕ) × (r ≡ ok last) × (last < v)
unfolding newer
newer-ok v (ok last) h =
    (last, refl, ltb→lt last v ((guard_iff (ltb last v) (rollback v last)).0 h))
newer-ok v (err e) h = cc

signed_by-ok :
    (env : Env) (canonical : Text) (trusted : Keys) (r : Result Refusal Text) (signers : List Text)
    → signed_by env canonical trusted r ≡ ok signers
    → (t : Text) × (r ≡ ok t)
      × (verify_signatures env.scheme canonical trusted t required_signers ≡ ok signers)
unfolding signed_by
signed_by-ok env canonical trusted (ok t) signers h = (
  t,
  refl,
  (map_err_iff signatures_refused
        (verify_signatures env.scheme canonical trusted t required_signers)).0
      h,
)
signed_by-ok env canonical trusted (err e) signers h = cc

module _ (env : Env) (run : Run) (versions : List (Text × Text)) where
  -- What the last three checks say of a manifest.
  abbrev Fits : Manifest → Type 0
  Fits m =
      (last : ℕ) × (last_accepted run.state_error versions m.bundle_id ≡ ok last)
      × (last < m.version)
      × Matches run.tree m.files (allow_or_default run.allow)

  content-Fits :
      (m : Manifest) (d : Decision) {b : Manifest × String}
      → (check_content env run versions m d).0 ≡ ok b
      → Fits m × ((m, content_root env.sum m.files) ≡ b)
  unfolding check_content
  content-Fits m d h =
      let found = last_accepted run.state_error versions m.bundle_id in
      let (_, d1, r1, h1) = noted-ok "version-rollback" (newer m.version found) _ d h in
      let checked = verify_against run.tree m.files (allow_or_default run.allow) in
      let (_, d2, r2, h2) = noted-ok "content" (map_err content_refused checked) _ d1 h1 in
      let (root, d3, r3, h3) =
        noted-ok "content-root" (ok (content_root env.sum m.files)) _ d2 h2 in
      let (last, rl, lt) = newer-ok m.version found r1 in
      (
        (
          last,
          rl,
          lt,
          (verify_against-iff-Matches run.tree m.files (allow_or_default run.allow)).0
              ((map_err_iff content_refused checked).0 r2),
        ),
        ap (λ x. (m, x)) (ok-injective r3) ∙ ok-injective h3,
      )

  -- What the signatures of a manifest's text say.
  abbrev Backed : Text → Type 0
  Backed canonical =
      (trusted : Keys) × (sig_file : Text) × (signers : List Text) × (load_public_keys env.scheme
          run.trusted_file
        ≡ ok trusted)
      × (signature_text run.sig_file ≡ ok sig_file)
      × Endorsed env.scheme canonical trusted sig_file required_signers signers

  signatures-Backed :
      (canonical : Text) (m : Manifest) (d : Decision) {b : Manifest × String}
      → (check_signatures env run versions canonical m d).0 ≡ ok b
      → Backed canonical × Fits m × ((m, content_root env.sum m.files) ≡ b)
  unfolding check_signatures
  signatures-Backed canonical m d h =
      let loaded = load_public_keys env.scheme run.trusted_file in
      let (keys, d1, r1, h1) = noted-ok "trusted-keys" (map_err keys_refused loaded) _ d h in
      let text = signature_text run.sig_file in
      let (signers, d2, r2, h2) =
        noted-ok "signatures" (signed_by env canonical keys text) _ d1 h1 in
      let (fits, e) =
        content-Fits m (record d2 { signers = signers })
          (set-ok (λ x. record x { signers = signers }) (λ _. check_content env run versions m) d2
            h2) in
      let (t, rt, rv) = signed_by-ok env canonical keys text signers r2 in
      (
        (
          keys,
          t,
          signers,
          (map_err_iff keys_refused loaded).0 r1,
          rt,
          (verify_signatures-iff-Endorsed env.scheme canonical keys t required_signers signers).0
              rv,
        ),
        fits,
        e,
      )

  all_together :
      (canonical : Text) (m : Manifest)
      → run.manifest_file ≡ ok canonical
      → IsParsed env.json canonical m
      → Backed canonical
      → Fits m
      → Vetted env run versions m
  all_together canonical m r p (keys, t, signers, rk, rt, e) (last, rl, lt, mt) = record {
    canonical = canonical;
    trusted = keys;
    sig_file = t;
    signers = signers;
    last = last;
    manifest_read = r;
    parsed = p;
    keys_read = rk;
    signatures_read = rt;
    endorsed = e;
    last_read = rl;
    newer_version = lt;
    matching = mt;
  }

  verify-Vetted :
      (d : Decision) (m : Manifest) (root : String)
      → (verify env run versions d).0 ≡ ok (m, root)
      → Vetted env run versions m × (root ≡ content_root env.sum m.files)
  unfolding verify
  verify-Vetted d m root h =
      let (b, d1, r1, h1) =
        noted-ok "manifest-present" (map_err manifest_absent run.manifest_file) _ d h in
      let (m', d2, r2, h2) =
        noted-ok "manifest-canonical" (map_err manifest_refused (parse env.json b)) _ d1 h1 in
      let (backed, fits, e) =
        signatures-Backed b m' (record d2 { bundle_id = m'.bundle_id; version = m'.version })
          (set-ok (λ x. record x { bundle_id = m'.bundle_id; version = m'.version })
            (λ _. check_signatures env run versions b m') d2 h2) in
      let v =
        all_together b m' ((map_err_iff manifest_absent run.manifest_file).0 r1)
          ((parse-iff-IsParsed env.json b m').0
            ((map_err_iff manifest_refused (parse env.json b)).0 r2))
          backed fits in
      subst (λ x. Vetted env run versions x.0 × (x.1 ≡ content_root env.sum x.0.files)) e (v, refl)

  Vetted-verify :
      (d : Decision) (m : Manifest)
      → Vetted env run versions m
      → (verify env run versions d).0 ≡ ok (m, content_root env.sum m.files)
  unfolding verify check_signatures check_content ◌>>=◌ go_on noted set signed_by newer
  Vetted-verify d m v =
      rw
        (
          v.manifest_read,
          (parse-iff-IsParsed env.json v.canonical m).1 v.parsed,
          v.keys_read,
          v.signatures_read,
          (verify_signatures-iff-Endorsed env.scheme v.canonical v.trusted v.sig_file
                required_signers v.signers).1
              v.endorsed,
          v.last_read,
          lt→ltb v.last m.version v.newer_version,
          (verify_against-iff-Matches run.tree m.files (allow_or_default run.allow)).1 v.matching,
        )
        refl

  -- The checks all pass, with the root of the manifest's files, exactly when the bundle is vetted.
  pub verify-iff-Vetted :
      (d : Decision) (m : Manifest) (root : String)
      → ((verify env run versions d).0 ≡ ok (m, root))
        ↔ (Vetted env run versions m × (root ≡ content_root env.sum m.files))
  verify-iff-Vetted d m root =
      (verify-Vetted d m root, (λ (v, e). Vetted-verify d m v ∙ ap (λ x. ok (m, x)) (sym e)))
