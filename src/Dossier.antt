-- ===== src/Dossier.antt =====
-- pkg/dossier/verify.go: the claims of a dossier, re-derived from what is in it. The decoding of the
-- decision, the digest of a file and the sum of the content root are given with the dossier; the
-- details of checks that pass are left out.
pub mod Derived
mod Tests
use arazu.Prelude.{
  String, Bool, true, false, not, ◌&&◌, ◌||◌, if◌then◌else◌, List, [], ◌∷◌, ◌++◌, Option, none,
  some, Result, ok, err, ◌>>=◌, map_err, guard, ◌>>◌, Checks, Text, codes, text_eq, member,
  contains,
}
use arazu.Corpus.Paths.{is_abs}
use arazu.ContentStore
use arazu.ContentStore.{FileEntry, Tree, measure_bundle, content_root}
use arazu.Gate.Decision.{Decision, Artifact, Problem, validate}

abbrev pub decision_file : Text
decision_file = codes "decision.json"

pub data DossierOutcome : Type 0 where
  verified : DossierOutcome
  unsupported_claim : DossierOutcome
  not_self_contained : DossierOutcome
  unreadable : DossierOutcome

pub data Failure : Type 0 where
  inconsistent : List Problem → Failure
  no_artifacts : Failure
  escapes : Text → Failure
  unhashed : Text → String → Failure
  wrong_hash : Text → Text → Failure
  unmeasured : ContentStore.StoreError → Failure
  wrong_root : Text → Failure
  outside_root : List Text → Failure

-- Check, with what it found when it failed.
pub record Check : Type 0 where
  pub name : String
  pub failure : Option Failure

-- Report, whose problems are the failures among the checks.
pub record Report : Type 0 where
  pub outcome : DossierOutcome
  pub checks : List Check

-- What is in the directory: the decision's file, the digests of files at their paths, and the tree
-- that MeasureBundle walks.
pub record Dossier : Type 0 where
  pub decision_text : Result String Text
  pub decode : Text → Result String Decision
  pub hash_file : Text → Result String Text
  pub tree : Tree
  pub sum : Text → String

pub failure_of : Checks Failure → Option Failure
failure_of (ok _) = none
failure_of (err f) = some f

abbrev check : String → Checks Failure → Check
check name c = record { name = name; failure = failure_of c }

-- The checks of Validate.
pub consistent : Decision → Checks Failure
consistent d = map_err inconsistent (validate d)

-- The loop over the artifacts.
pub artifact_holds : Dossier → Artifact → Checks Failure
artifact_holds dossier a = do
  guard (not (is_abs a.path || contains a.path (codes ".."))) (escapes a.path)
  sum ← map_err (unhashed a.path) (dossier.hash_file a.path)
  guard (text_eq sum a.sha256) (wrong_hash a.path sum)

pub artifact_checks : Dossier → List Artifact → List Check
artifact_checks dossier [] = []
artifact_checks dossier (a ∷ more) =
    check a.role (artifact_holds dossier a) ∷ artifact_checks dossier more

-- The root that a caller expects; an empty one is compared with nothing.
pub root_matches : Text → Text → Checks Failure
root_matches root [] = ok tt
root_matches root (c ∷ expected) = guard (text_eq root (c ∷ expected)) (wrong_root root)

pub paths_of : List FileEntry → List Text
paths_of [] = []
paths_of (f ∷ fs) = codes f.path ∷ paths_of fs

pub artifact_paths : List Artifact → List Text
artifact_paths [] = []
artifact_paths (a ∷ more) = a.path ∷ artifact_paths more

pub uncovered : List Text → List Text → List Text
uncovered covered [] = []
uncovered covered (p ∷ more) =
    let rest = uncovered covered more in if member p covered then rest else p ∷ rest

pub all_covered : List Text → Checks Failure
all_covered [] = ok tt
all_covered (p ∷ more) = err (outside_root (p ∷ more))

pub covers : List FileEntry → List Artifact → Checks Failure
covers files artifacts =
    all_covered (uncovered (paths_of files) (decision_file ∷ artifact_paths artifacts))

pub measured_checks :
    Text → List Artifact → Result ContentStore.StoreError (List FileEntry × String) → List Check
measured_checks expected artifacts (err e) =
    check "content root recomputes" (err (unmeasured e)) ∷ []
measured_checks expected artifacts (ok (files, root)) =
    check "content root matches the seal" (root_matches (codes root) expected)
    ∷ check "measured root covers the evidence" (covers files artifacts)
    ∷ []

pub passes : Option Failure → Bool
passes none = true
passes (some f) = false

pub all_passed : List Check → Bool
all_passed [] = true
all_passed (c ∷ cs) = passes c.failure && all_passed cs

-- Report.done
pub done : List Check → Report
done cs = record { outcome = if all_passed cs then verified else unsupported_claim; checks = cs }

pub with_artifacts : Dossier → Text → Decision → List Artifact → Report
with_artifacts dossier expected d [] = record {
  outcome = not_self_contained;
  checks =
      check "decision parses" (ok tt)
      ∷ check "decision is internally consistent" (consistent d)
      ∷ check "carries its artifacts" (err no_artifacts)
      ∷ [];
}
with_artifacts dossier expected d (a ∷ more) = done (
    check "decision parses" (ok tt)
      ∷ check "decision is internally consistent" (consistent d)
      ∷ artifact_checks dossier (a ∷ more)
    ++ measured_checks expected (a ∷ more) (measure_bundle (content_root dossier.sum) dossier.tree))

pub decoded : Dossier → Text → Result String Decision → Report
decoded dossier expected (err e) = record { outcome = unreadable; checks = [] }
decoded dossier expected (ok d) = with_artifacts dossier expected d d.artifacts

-- Verify
pub verify : Dossier → Text → Report
verify dossier expected = decoded dossier expected (dossier.decision_text >>= dossier.decode)
