-- ===== src/Dossier/Derived.antt =====
-- What a dossier that is verified carries.
use arazu.Prelude.{
  String, Bool, true, false, not, not-true_iff, ◌&&◌, ◌||◌, Bool-cases, inl, inr, ◌⊎◌, ◌≡◌, ◌≢◌,
  ◌↔◌, refl, sym, ap, subst, ◌∙◌, List, [], ◌∷◌, ◌++◌, Result, ok, err, ◌>>=◌, >>=_iff, map_err,
  map_err_iff, guard_iff, guard->>_iff, ok-injective, Checks, All, Text, codes, text_eq,
  text_eq_iff, text_eq_refl, member, contains,
}
use arazu.Corpus.Paths.{is_abs}
use arazu.ContentStore.{FileEntry, StoreError, measure_bundle, content_root}
use arazu.Gate.Decision.{Decision, Artifact, validate}
use arazu.Dossier.{
  decision_file, verified, Failure, inconsistent, escapes, unhashed, wrong_hash, wrong_root, Check,
  Dossier, failure_of, check, consistent, artifact_holds, artifact_checks, root_matches, paths_of,
  artifact_paths, uncovered, all_covered, covers, measured_checks, passes, all_passed, done,
  with_artifacts, decoded, verify,
}

-- The artifact is in the dossier, with the digest that the decision records.
abbrev pub Carried : Dossier → Artifact → Type 0
Carried dossier a =
    ((is_abs a.path || contains a.path (codes "..")) ≡ false)
    × (dossier.hash_file a.path ≡ ok a.sha256)

-- The measured files have the path.
abbrev pub Covered : List FileEntry → Text → Type 0
Covered files p = member p (paths_of files) ≡ true

pub record IsDerived (dossier : Dossier) (expected : Text) : Type 0 where
  pub text : Text
  pub decision : Decision
  pub files : List FileEntry
  pub root : String
  pub read : dossier.decision_text ≡ ok text
  pub parsed : dossier.decode text ≡ ok decision
  pub valid : validate decision ≡ ok tt
  pub has_artifacts : decision.artifacts ≢ []
  pub carried : All (Carried dossier) decision.artifacts
  pub measured : measure_bundle (content_root dossier.sum) dossier.tree ≡ ok (files, root)
  pub sealed : (expected ≡ []) ⊎ (codes root ≡ expected)
  pub covered : All (Covered files) (decision_file ∷ artifact_paths decision.artifacts)

and_iff : (a b : Bool) → ((a && b) ≡ true) ↔ ((a ≡ true) × (b ≡ true))
and_iff true b = ((λ h. (refl, h)), (λ h. h.1))
and_iff false b = ((λ h. cc), (λ h. cc (h.0)))

passes_iff : (c : Checks Failure) → (passes (failure_of c) ≡ true) ↔ (c ≡ ok tt)
unfolding passes failure_of
passes_iff (ok _) = ((λ h. refl), (λ h. refl))
passes_iff (err e) = ((λ h. cc), (λ h. cc))

all_passed_iff :
    (name : String) (c : Checks Failure) (cs : List Check)
    → (all_passed (check name c ∷ cs) ≡ true) ↔ ((c ≡ ok tt) × (all_passed cs ≡ true))
unfolding all_passed
all_passed_iff name c cs =
    let a = and_iff (passes (failure_of c)) (all_passed cs) in
    let p = passes_iff c in ((λ h. let (x, y) = a.0 h in (p.0 x, y)), (λ (x, y). a.1 (p.1 x, y)))

consistent_iff : (d : Decision) → (consistent d ≡ ok tt) ↔ (validate d ≡ ok tt)
unfolding consistent
consistent_iff d = map_err_iff inconsistent (validate d)

artifact_holds-Carried :
    (dossier : Dossier) (a : Artifact) → (artifact_holds dossier a ≡ ok tt) ↔ Carried dossier a
unfolding artifact_holds
artifact_holds-Carried dossier a =
    let away = is_abs a.path || contains a.path (codes "..") in
    (
      (λ h.
          let (n, h1) = (guard->>_iff (not away) (escapes a.path) _).0 h in
          let (sum, r, h2) =
            (>>=_iff (map_err (unhashed a.path) (dossier.hash_file a.path)) _).0 h1 in
          (
            (not-true_iff away).0 n,
            (map_err_iff (unhashed a.path) (dossier.hash_file a.path)).0 r
                ∙ ap ok (
                    (text_eq_iff sum a.sha256).0
                      ((guard_iff (text_eq sum a.sha256) (wrong_hash a.path sum)).0 h2)),
          )),
      (λ (n, r). rw (n, r, text_eq_refl a.sha256) refl),
    )

artifact_checks_iff :
    (dossier : Dossier) (as_recorded : List Artifact) (rest : List Check)
    → (all_passed (artifact_checks dossier as_recorded ++ rest) ≡ true)
      ↔ (All (Carried dossier) as_recorded × (all_passed rest ≡ true))
unfolding artifact_checks
artifact_checks_iff dossier [] rest = ((λ h. (tt, h)), (λ h. h.1))
artifact_checks_iff dossier (a ∷ more) rest =
    let i =
      all_passed_iff a.role (artifact_holds dossier a) (artifact_checks dossier more ++ rest) in
    let c = artifact_holds-Carried dossier a in
    let ih = artifact_checks_iff dossier more rest in
    (
      (λ h. let (x, y) = i.0 h in let (z, r) = ih.0 y in ((c.0 x, z), r)),
      (λ ((x, z), r). i.1 (c.1 x, ih.1 (z, r))),
    )

root_matches_iff :
    (root expected : Text)
    → (root_matches root expected ≡ ok tt) ↔ ((expected ≡ []) ⊎ (root ≡ expected))
unfolding root_matches
root_matches_iff root [] = ((λ h. inl refl), (λ h. refl))
root_matches_iff root (c ∷ e) =
    let g = guard_iff (text_eq root (c ∷ e)) (wrong_root root) in
    let t = text_eq_iff root (c ∷ e) in
    ((λ h. inr (t.0 (g.0 h))), (λ h. elim h [ inl x ↦ cc | inr x ↦ g.1 (t.1 x) ]))

covers_iff :
    (files : List FileEntry) (ps : List Text)
    → (all_covered (uncovered (paths_of files) ps) ≡ ok tt) ↔ All (Covered files) ps
unfolding uncovered all_covered
covers_iff files [] = ((λ h. tt), (λ h. refl))
covers_iff files (p ∷ ps) = elim (Bool-cases (member p (paths_of files))) [
  | inl e ↦ rw e ((λ h. (refl, (covers_iff files ps).0 h)), (λ h. (covers_iff files ps).1 h.1))
  | inr e ↦ rw e ((λ h. cc), (λ h. cc (h.0)))
]

-- What the measurement adds.
abbrev Sealed : Text → List Artifact → Result StoreError (List FileEntry × String) → Type 0
Sealed expected artifacts r =
    (files : List FileEntry) × (root : String) × (r ≡ ok (files, root))
    × ((expected ≡ []) ⊎ (codes root ≡ expected))
    × All (Covered files) (decision_file ∷ artifact_paths artifacts)

measured_checks-Sealed :
    (expected : Text) (artifacts : List Artifact) (r : Result StoreError (List FileEntry × String))
    → (all_passed (measured_checks expected artifacts r) ≡ true) ↔ Sealed expected artifacts r
unfolding measured_checks covers all_passed
measured_checks-Sealed expected artifacts (err e) =
    ((λ h. cc (((all_passed_iff "content root recomputes" (err _) []).0 h).0)), (λ h. cc (h.2)))
measured_checks-Sealed expected artifacts (ok (files, root)) =
    let paths = decision_file ∷ artifact_paths artifacts in
    let i =
      all_passed_iff "content root matches the seal" (root_matches (codes root) expected)
        (check "measured root covers the evidence" (covers files artifacts) ∷ []) in
    let j = all_passed_iff "measured root covers the evidence" (covers files artifacts) [] in
    let m = root_matches_iff (codes root) expected in
    let c = covers_iff files paths in
    (
      (λ h. let (x, y) = i.0 h in (files, root, refl, m.0 x, c.0 ((j.0 y).0))),
      (λ (files', root', e, s, a).
          let same = ok-injective (sym e) in
          i.1 (
            m.1 (subst (λ x. (expected ≡ []) ⊎ (codes x.1 ≡ expected)) same s),
            j.1 (c.1 (subst (λ x. All (Covered x.0) paths) same a), refl),
          )),
    )

done-verified : (cs : List Check) → ((done cs).outcome ≡ verified) ↔ (all_passed cs ≡ true)
unfolding done
done-verified cs = elim (Bool-cases (all_passed cs)) [
  | inl e ↦ rw e ((λ h. refl), (λ h. refl))
  | inr e ↦ rw e ((λ h. cc), (λ h. cc))
]

-- What is derived of a decision with its artifacts.
abbrev Supported : Dossier → Text → Decision → List Artifact → Type 0
Supported dossier expected d artifacts =
    (validate d ≡ ok tt)
    × (artifacts ≢ [])
    × All (Carried dossier) artifacts
    × Sealed expected artifacts (measure_bundle (content_root dossier.sum) dossier.tree)

with_artifacts-Supported :
    (dossier : Dossier) (expected : Text) (d : Decision) (artifacts : List Artifact)
    → ((with_artifacts dossier expected d artifacts).outcome ≡ verified)
      ↔ Supported dossier expected d artifacts
unfolding with_artifacts
with_artifacts-Supported dossier expected d [] = ((λ h. cc), (λ h. absurd (h.1 refl)))
with_artifacts-Supported dossier expected d (a ∷ more) =
    let r = measure_bundle (content_root dossier.sum) dossier.tree in
    let tail = measured_checks expected (a ∷ more) r in
    let rest = artifact_checks dossier (a ∷ more) ++ tail in
    let second = check "decision is internally consistent" (consistent d) ∷ rest in
    let dn = done-verified (check "decision parses" (ok tt) ∷ second) in
    let one = all_passed_iff "decision parses" (ok tt) second in
    let two = all_passed_iff "decision is internally consistent" (consistent d) rest in
    let three = artifact_checks_iff dossier (a ∷ more) tail in
    let four = measured_checks-Sealed expected (a ∷ more) r in
    (
      (λ h.
          let (v, x) = two.0 ((one.0 (dn.0 h)).1) in
          let (c, y) = three.0 x in ((consistent_iff d).0 v, (λ e. cc), c, four.0 y)),
      (λ (v, n, c, s). dn.1 (one.1 (refl, two.1 ((consistent_iff d).1 v, three.1 (c, four.1 s))))),
    )

decoded-Supported :
    (dossier : Dossier) (expected : Text) (r : Result String Decision)
    → ((decoded dossier expected r).outcome ≡ verified)
      ↔ ((d : Decision) × (r ≡ ok d) × Supported dossier expected d d.artifacts)
unfolding decoded
decoded-Supported dossier expected (err e) = ((λ h. cc), (λ h. cc (h.1)))
decoded-Supported dossier expected (ok d) =
    let w = with_artifacts-Supported dossier expected d d.artifacts in
    (
      (λ h. (d, refl, w.0 h)),
      (λ (d', e, s).
          w.1 (subst (λ x. Supported dossier expected x x.artifacts) (ok-injective (sym e)) s)),
    )

-- A dossier is verified exactly when its decision reads, decodes and is valid, it has artifacts, each
-- is a file of the dossier with the digest that the decision records, the directory measures to the
-- expected root, when there is one, and what is measured covers the decision and the artifacts.
pub verify-IsDerived_iff :
    (dossier : Dossier) (expected : Text)
    → ((verify dossier expected).outcome ≡ verified) ↔ IsDerived dossier expected
unfolding verify
verify-IsDerived_iff dossier expected =
    let w = decoded-Supported dossier expected (dossier.decision_text >>= dossier.decode) in
    (
      (λ h.
          let (d, e, (v, n, c, (files, root, m, s, a))) = w.0 h in
          let (t, rd, dc) = (>>=_iff dossier.decision_text dossier.decode).0 e in
          record {
            text = t;
            decision = d;
            files = files;
            root = root;
            read = rd;
            parsed = dc;
            valid = v;
            has_artifacts = n;
            carried = c;
            measured = m;
            sealed = s;
            covered = a;
          }),
      (λ i. w.1 (
        i.decision,
        (>>=_iff dossier.decision_text dossier.decode).1 (i.text, i.read, i.parsed),
        (i.valid, i.has_artifacts, i.carried, (i.files, i.root, i.measured, i.sealed, i.covered)),
      )),
    )
