-- ===== src/Command/Tests.antt =====
-- The command on M0, on a machine with one case and one patch.
use arazu.Prelude.{
  ◌≢◌, Bool, false, has_prefix, scan_lines, concat, decimal, String, ◌≡◌, refl, ap, inl, List, [],
  ◌∷◌, ok, err, pos, Text, blank, arith,
}
use arazu.Corpus.Validity.Tests.{gradable_case, validate_case-gradable_case}
use arazu.Corpus.Samples.{sample_candidate}
use arazu.Gate.Decision.{no_case_id, accept, passed, Decision, validate}
use arazu.Gate.Decision.Support.{IsSupported, validate-iff-IsSupported}
use arazu.Gate.Verify.{
  verify, run_stages, after_run, conclude, finish, validated, name_result, malformed,
}
use arazu.Gate.Effect.{
  content, effect_run, grade_file, effect_result, effect_evidence, count_lines, count_line,
  is_header,
}
use arazu.Gate.Effect.Tests.{sample_patch}
use arazu.Gate.Exec.{◌>>=◌, Did, Did->>=}
use arazu.Command.{
  Options, Host, exit_code, pick, checked, load, picked, from_gate, input_for, grade_m0,
  grade_stage, sources, grade, write_decision, log_decision, emit_decision, code_of, known_stage,
  start, command, not_proven_m0,
}
use arazu.ClassReplay.{ClassStage}
use arazu.Revert.Tests.{sample_stage}
use arazu.Sanitizer.Tests.{sample_stage as sanitizer_sample}
use arazu.Gate.Verify.Tests.{sample_input}
use arazu.Command.Total.{all_stages, verify-all_stages}
use arazu.Command.Exit.{Recorded, command-Recorded}

abbrev machine : Host (Unit {0})
machine = record {
  decode = λ path w. (ok gradable_case, w);
  show_case_error = λ e. "incomplete case";
  show_gate_error = λ e. "undecided";
  open_file = λ w p. content sample_patch;
  resolve_target = λ c root shim w. (err "no challenge here", w);
  resolve_class_target = λ c corpus repo shim dir members w. (err "no class here", w);
  temp_dir = λ w. (ok "/tmp/arazu-m2-1", w);
  abs = λ p w. (ok "/src/x", w);
  quote = λ s. s;
  write_dossier = λ dir d files w. (ok [], w);
  append_log = λ path event detail w. (ok tt, w);
}

abbrev flags : Options
flags = record {
  case_path = "corpus/nginx-1.yaml";
  candidate = "good-1";
  root = "/src/nginx";
  repo_root = "/repo";
  stage = "m0";
  shim = "";
  corpus_root = "";
  work_dir = "";
  members = pos 0;
  bundle = "";
  log = "audit.log";
}

abbrev decided : Decision
decided = record {
  case_id = "nginx-1";
  candidate_id = "good-1";
  verdict = accept;
  reason = "";
  stages =
      record {
        stage = "patch-effect";
        outcome = passed;
        reason = "";
        evidence = "read patches/good.diff" ∷ "1 hunks, 1 added lines, 1 removed lines" ∷ [];
      }
      ∷ [];
  not_proven = not_proven_m0;
  artifacts = [];
  usage = [];
}

decided-IsSupported : IsSupported decided
unfolding not_proven_m0 blank
decided-IsSupported = record {
  case_named = λ e. cc;
  candidate_named = λ e. cc;
  limits_stated = inl refl;
  observed = (record { named = λ e. cc; seen = inl refl; fits = refl }, tt);
  concludes = (refl, refl);
}

validate-decided : validate decided ≡ ok tt
validate-decided = (validate-iff-IsSupported decided).1 decided-IsSupported

load-gradable_case : Did (load machine "corpus/nginx-1.yaml") tt gradable_case tt
unfolding load checked ◌>>=◌
load-gradable_case = ap (λ v. checked machine gradable_case v tt) validate_case-gradable_case

grade_m0-decided : Did (grade_m0 machine flags gradable_case sample_candidate) tt decided tt
unfolding grade_m0 input_for from_gate verify run_stages after_run conclude finish validated
    name_result effect_run grade_file effect_result effect_evidence count_lines count_line is_header
    not_proven_m0 has_prefix scan_lines concat decimal
grade_m0-decided = ap (λ v. from_gate machine (validated decided v, tt)) validate-decided

grade-decided :
    Did
      (grade machine flags)
      tt
      (decided, sources machine flags "m0" gradable_case sample_candidate)
      tt
unfolding grade pick picked grade_stage
grade-decided =
    Did->>= _ _ load-gradable_case (Did->>= _ _ refl (Did->>= _ _ grade_m0-decided refl))

emit_decision-decided :
    (files : List (String × Text)) → Did (emit_decision machine flags (decided, files)) tt 0 tt
unfolding emit_decision write_decision log_decision exit_code ◌>>=◌
emit_decision-decided files = refl

command_m0 : command machine flags tt ≡ (0, tt)
unfolding command start known_stage code_of
command_m0 = ap (code_of machine flags) (
    Did->>= (grade machine flags) (emit_decision machine flags) grade-decided
      (emit_decision-decided (sources machine flags "m0" gradable_case sample_candidate)))

command-Recorded_example : Recorded machine flags tt 0 tt
command-Recorded_example = command-Recorded machine flags tt tt 0 command_m0 (λ e. ground arith)

abbrev two_members : ClassStage Bool
two_members = record {
  target = record {
    generate = λ fc w. (ok ("a" ∷ "b" ∷ [], pos 2), w);
    replay_against = λ patch members w. (ok (("a", "400") ∷ ("b", "400") ∷ []), w);
  };
  candidate_patch = "/src/nginx/patches/good.diff";
  reference_patch = "/src/nginx/patches/ref.diff";
}

verify-all_stages_example :
    (verify sample_input
      (all_stages (λ s. s) (λ w p. content sample_patch) sample_stage two_members sanitizer_sample)
      ("that the class is complete" ∷ [])
      false).0
    ≢ err (malformed (no_case_id ∷ []))
verify-all_stages_example =
    verify-all_stages (λ s. s) (λ w p. content sample_patch) sample_stage two_members
      sanitizer_sample sample_input ("that the class is complete" ∷ []) false (no_case_id ∷ [])
      (λ e. cc) (λ e. cc) (inl (unfold blank in refl))
