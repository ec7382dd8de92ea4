-- ===== src/Gate/Verify/Tests.antt =====
-- Runs of `Verify` in a world that counts the stages which ran.
use arazu.Prelude.{
  ℕ, suc, String, List, [], ◌∷◌, ok, err, ◌≡◌, ◌≢◌, refl, All, length, inl, blank, ok-injective,
}
use arazu.Corpus.Samples.{sample_case, sample_candidate}
use arazu.Gate.Decision.{passed, failed, accepted_with_reason, Outcome, StageResult}
use arazu.Gate.Decision.Tests.{accepted, rejected, validate-accepted, validate-rejected}
use arazu.Gate.Decision.Support.{IsSupported}
use arazu.Gate.Verify.{
  Input, Stage, could_not_run, malformed, name_result, conclude, after_run, run_stages, finish,
  validated, verify,
}
use arazu.Gate.Verify.Laws.{Runs, verify-IsSupported, verify-accept}
use arazu.Gate.Verify.Order.{verify-Stops, verify-could_not_run}
use arazu.Gate.Verify.Total.{Reports, verify-not-malformed}

abbrev pub sample_input : Input
sample_input = record {
  case = sample_case;
  candidate = sample_candidate;
  root = "/src/nginx";
  repo_root = "/repo";
}

abbrev answer : Outcome → String → List String → StageResult
answer o r ev = record { stage = ""; outcome = o; reason = r; evidence = ev }

abbrev counting : String → StageResult → Stage ℕ
counting name res = record { name = name; run = λ inp w. (ok res, suc w) }

abbrev effect_ok : Stage ℕ
effect_ok = counting "patch-effect" (answer passed "" ("2 hunks" ∷ []))

abbrev replay_ok : Stage ℕ
replay_ok = counting "class-replay" (answer passed "" ("agrees" ∷ []))

abbrev effect_bad : Stage ℕ
effect_bad = counting "patch-effect" (answer failed "empty-patch" ("0 hunks" ∷ []))

abbrev broken : Stage ℕ
broken = record { name = "class-replay"; run = λ inp w. (err "generate: exit 2", suc w) }

abbrev limits : List String
limits = "that the class is complete" ∷ []

verify-accepted : (verify sample_input (effect_ok ∷ replay_ok ∷ []) limits 0).0 ≡ ok accepted
unfolding verify run_stages after_run conclude name_result finish validated
verify-accepted = rw validate-accepted refl

verify-rejected : (verify sample_input (effect_bad ∷ replay_ok ∷ []) limits 0).0 ≡ ok rejected
unfolding verify run_stages after_run conclude name_result finish validated
verify-rejected = rw validate-rejected refl

verify-IsSupported_example : IsSupported rejected
verify-IsSupported_example =
    verify-IsSupported sample_input (effect_bad ∷ replay_ok ∷ []) limits 0 rejected verify-rejected

verify-accept_example :
    Runs sample_input 0
      (effect_ok ∷ replay_ok ∷ [])
      (verify sample_input (effect_ok ∷ replay_ok ∷ []) limits 0).1
    × (length accepted.stages ≡ 2)
    × All (λ s. s.outcome ≡ passed) accepted.stages
verify-accept_example =
    verify-accept sample_input (effect_ok ∷ replay_ok ∷ []) limits 0 accepted verify-accepted refl

verify-Stops_example :
    verify sample_input (effect_ok ∷ effect_bad ∷ replay_ok ∷ []) limits 0
    ≡ verify sample_input (effect_ok ∷ effect_bad ∷ []) limits 0
verify-Stops_example =
    verify-Stops sample_input (effect_ok ∷ []) (replay_ok ∷ []) effect_bad limits 0 1 2
      (answer failed "empty-patch" ("0 hunks" ∷ []))
      (answer passed "" ("2 hunks" ∷ []), 1, refl, (λ h. h), refl) refl tt

verify-could_not_run_example :
    verify sample_input (effect_ok ∷ broken ∷ effect_ok ∷ []) limits 0
    ≡ (err (could_not_run "class-replay" "generate: exit 2"), 2)
verify-could_not_run_example =
    verify-could_not_run sample_input (effect_ok ∷ []) (effect_ok ∷ []) broken limits 0 1 2
      "generate: exit 2" (answer passed "" ("2 hunks" ∷ []), 1, refl, (λ h. h), refl) refl

counting-Reports : Reports effect_bad
unfolding name_result blank
counting-Reports inp w w' res h =
    let e : answer failed "empty-patch" ("0 hunks" ∷ []) ≡ res = ok-injective (λ i. (h i).0) in
    rw (← e) (record { named = λ q. cc; seen = inl refl; fits = λ q. cc })

verify-not-malformed_example :
    (verify sample_input (effect_bad ∷ []) limits 0).0 ≢ err (malformed (accepted_with_reason ∷ []))
verify-not-malformed_example =
    verify-not-malformed sample_input (effect_bad ∷ []) limits 0 (accepted_with_reason ∷ [])
      (λ e. cc) (λ e. cc) (inl (unfold blank in refl)) (λ e. cc) (counting-Reports, tt)
