-- ===== src/Dossier/Tests.antt =====
-- A dossier of one artifact, and what becomes of it when the artifact is replaced.
use arazu.Prelude.{
  ◌≡◌, ◌↔◌, refl, [], ◌∷◌, ok, err, Text, codes, text_eq, if◌then◌else◌, contains, has_prefix,
}
use arazu.ContentStore.{Tree, directory, regular}
use arazu.Gate.Decision.{Artifact}
use arazu.Gate.Decision.Tests.{accepted}
use arazu.Dossier.{Dossier, verified, wrong_hash, artifact_holds, verify}
use arazu.Dossier.Derived.{IsDerived, verify-IsDerived_iff}
use arazu.Corpus.Paths.{is_abs}

abbrev sample_artifact : Artifact
sample_artifact = record {
  role = "candidate-patch";
  path = codes "artifacts/candidate-patch.patch";
  sha256 = codes "aa";
}

abbrev sample_tree : Tree
sample_tree =
    ("artifacts", directory)
    ∷ ("artifacts/candidate-patch.patch", regular "aa" 10)
    ∷ ("decision.json", regular "dd" 90)
    ∷ []

abbrev dossier_of : Text → Dossier
dossier_of sum = record {
  decision_text = ok (codes "{}");
  decode = λ t. ok (record accepted { artifacts = sample_artifact ∷ [] });
  hash_file = λ p.
      if text_eq p (codes "artifacts/candidate-patch.patch")
      then ok sum
      else err "not in the dossier";
  tree = sample_tree;
  sum = λ t. "root";
}

kept : artifact_holds (dossier_of (codes "aa")) sample_artifact ≡ ok tt
unfolding artifact_holds is_abs contains has_prefix text_eq
kept = refl

replaced :
    artifact_holds (dossier_of (codes "bb")) sample_artifact
    ≡ err (wrong_hash (codes "artifacts/candidate-patch.patch") (codes "bb"))
unfolding artifact_holds is_abs contains has_prefix text_eq
replaced = refl

verify-IsDerived_iff_example :
    ((verify (dossier_of (codes "aa")) (codes "root")).outcome ≡ verified)
    ↔ IsDerived (dossier_of (codes "aa")) (codes "root")
verify-IsDerived_iff_example = verify-IsDerived_iff (dossier_of (codes "aa")) (codes "root")
