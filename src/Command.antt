-- ===== src/Command.antt =====
-- cmd/gate: the command that runs one stage on one candidate, records the decision and exits with
-- the verdict's code. What it calls of the machine is `Host`.
pub mod Exit
pub mod Total
mod Tests
use arazu.Prelude.{
  ℕ, String, ◌==◌, ◌||◌, Bool, true, false, if◌then◌else◌, List, [], ◌∷◌, Option, none, some, ℤ,
  Result, ok, err, Text, codes, concat,
}
use arazu.Corpus.Case.{Case, Candidate, candidate_patch_path, reference_patch_path, input_path}
use arazu.Corpus.Validity.{CaseError, validate_case}
use arazu.Gate.Decision.{Verdict, accept, reject, error, other_verdict, Artifact, Decision}
use arazu.Gate.Verify.{Input, Stage, GateError, verify}
use arazu.Gate.Effect.{Opened, effect_stage}
use arazu.Gate.Exec.{Exec, pure, ◌>>=◌, ◌>>◌}
use arazu.Revert.{Target, revert_stage}
use arazu.Sanitizer.{sanitizer_stage}
use arazu.ClassReplay.{ClassTarget, class_stage}

-- The flags.
pub record Options : Type 0 where
  pub case_path : String
  pub candidate : String
  pub root : String
  pub repo_root : String
  pub stage : String
  pub shim : String
  pub corpus_root : String
  pub work_dir : String
  pub members : ℤ
  pub bundle : String
  pub log : String

-- Reading and decoding a case file, opening a patch, the targets of the stages, a temporary
-- directory, filepath.Abs, writing a dossier, which returns the artifacts that it has copied in, and
-- appending to the audit log. Errors are the texts that they print.
pub record Host (W : Type 0) : Type 0 where
  pub decode : String → Exec W Case
  pub show_case_error : CaseError → String
  pub show_gate_error : GateError → String
  pub open_file : W → Text → Opened
  pub resolve_target : Case → String → String → Exec W (Target W)
  pub resolve_class_target : Case → String → String → String → String → ℤ → Exec W (ClassTarget W)
  pub temp_dir : Exec W String
  pub abs : Text → Exec W String
  pub quote : String → String
  pub write_dossier : String → Decision → List (String × Text) → Exec W (List Artifact)
  pub append_log : String → String → String → Exec W (Unit {0})

pick : String → List Candidate → Option Candidate
pick id [] = none
pick id (c ∷ cs) = if c.id == id then some c else pick id cs

-- The event and the detail that the log records.
event_of : Verdict → String
event_of reject = "GATE_REJECT"
event_of error = "GATE_ERROR"
event_of _ = "GATE_ACCEPT"

pub detail_of : Decision → String
detail_of d =
    let name = concat (d.case_id ∷ "/" ∷ d.candidate_id ∷ []) in
    if d.reason == "" then name else concat (name ∷ ": " ∷ d.reason ∷ [])

-- The code that the process exits with.
pub exit_code : Verdict → ℕ
exit_code reject = 1
exit_code error = 2
exit_code _ = 0

-- What the sweep of a stage does not prove.
not_proven_m0 : List String
not_proven_m0 =
    "only the patch-effect stage has run; revert-attribution, falsifying-class replay, sanitizer-gated reachability, isolated red-team and the non-determinism control are not implemented yet"
    ∷ "a passing patch-effect stage means the patch changes lines, not that the change is correct"
    ∷ []

not_proven_m1 : List String
not_proven_m1 =
    "only revert-to-attribute has run; falsifying-class replay, sanitizer-gated reachability and the non-determinism control have not"
    ∷ "a credited patch has been shown to stop this PoV, not to be correct" ∷ []

not_proven_m2 : List String
not_proven_m2 =
    "only falsifying-class replay has run; revert-attribution, sanitizer-gated reachability and the non-determinism control have not"
    ∷ "agreement with the reference across this class is not correctness in general: the class is the one the case describes, not every input the target accepts"
    ∷ []

not_proven_m3 : List String
not_proven_m3 =
    "only sanitizer-gated reachability has run; revert-attribution, falsifying-class replay and the non-determinism control have not"
    ∷ "no NEW sanitizer finding is not a proof of unreachability, which is undecidable in general; the bar met here is that no input in the falsifying class reached the vulnerable sink under sanitizer"
    ∷ []

fail : {W A : Type 0} → String → Exec W A
fail m w = (err m, w)

module _ {W : Type 0} (h : Host W) where
  checked : Case → Result CaseError (Unit {0}) → Exec W Case
  checked c (ok _) = pure c
  checked c (err e) = fail (h.show_case_error e)

  -- corpus.Load
  load : String → Exec W Case
  load path = do
    c ← h.decode path
    let named = record c { path = path }
    checked named (validate_case named)

  picked : Case → String → Option Candidate → Exec W Candidate
  picked c id (some cand) = pure cand
  picked c id none = fail (concat ("case " ∷ c.id ∷ " has no candidate " ∷ h.quote id ∷ []))

  from_gate : Result GateError Decision × W → Result String Decision × W
  from_gate (ok d, w) = (ok d, w)
  from_gate (err e, w) = (err (h.show_gate_error e), w)

module _ {W : Type 0} (h : Host W) (o : Options) where
  input_for : Case → Candidate → Input
  input_for c cand = record { case = c; candidate = cand; root = o.root; repo_root = o.repo_root }

  grade_m0 : Case → Candidate → Exec W Decision
  grade_m0 c cand w =
      from_gate h (verify (input_for c cand) (effect_stage h.open_file ∷ []) not_proven_m0 w)

  grade_m1 : Case → Candidate → Exec W Decision
  grade_m1 c cand = do
    t ← h.resolve_target c o.root o.shim
    λ w. from_gate h (
        verify (input_for c cand)
          (revert_stage (record {
            target = t;
            blob_path = input_path c o.root o.repo_root;
            patch_path = candidate_patch_path c cand o.root o.repo_root;
          })
            ∷ [])
          not_proven_m1 w)

  grade_m3 : Case → Candidate → Exec W Decision
  grade_m3 c cand = do
    t ← h.resolve_target c o.root o.shim
    λ w. from_gate h (
        verify (input_for c cand)
          (sanitizer_stage (record {
            target = t;
            blob_path = input_path c o.root o.repo_root;
            patch_path = candidate_patch_path c cand o.root o.repo_root;
            require_recover = true;
          })
            ∷ [])
          not_proven_m3 w)

  work_dir : Exec W String
  work_dir = if o.work_dir == "" then h.temp_dir else pure o.work_dir

  replay_with : Case → Candidate → Bool → Exec W Decision
  replay_with c cand true = fail (
      concat (
        "case " ∷ c.id
        ∷ " carries no reference_patch, and falsifying-class replay compares a candidate against a known-good fix; there is nothing to compare to"
        ∷ []))
  replay_with c cand false = do
    dir ← work_dir
    t ← h.resolve_class_target c o.corpus_root o.repo_root o.shim dir o.members
    candidate ← h.abs (candidate_patch_path c cand o.root o.repo_root)
    reference ← h.abs (reference_patch_path c o.root o.repo_root)
    λ w. from_gate h (
        verify (input_for c cand)
          (class_stage h.quote
              (record { target = t; candidate_patch = candidate; reference_patch = reference })
            ∷ [])
          not_proven_m2 w)

  grade_m2 : Case → Candidate → Exec W Decision
  grade_m2 c cand = replay_with c cand (c.reference_patch == "")

  grade_stage : String → Case → Candidate → Exec W Decision
  grade_stage stage c cand =
      if stage == "m1"
      then grade_m1 c cand
      else if stage == "m3"
      then grade_m3 c cand
      else if stage == "m2"
      then grade_m2 c cand
      else grade_m0 c cand

  -- The files that the verdict of M0 is about, by their roles in order; a sweep names none.
  sources : String → Case → Candidate → List (String × Text)
  sources stage c cand =
      if stage == "m0"
      then ("candidate-patch", candidate_patch_path c cand o.root o.repo_root)
        ∷ ("case", codes o.case_path)
        ∷ ("pov", input_path c o.root o.repo_root)
        ∷ []
      else []

  -- Up to the decision: an error on the way is reported as undecided.
  pub grade : Exec W (Decision × List (String × Text))
  grade = do
    c ← load h o.case_path
    cand ← picked h c o.candidate (pick o.candidate c.candidates)
    d ← grade_stage o.stage c cand
    pure (d, sources o.stage c cand)

  -- writeDecision
  write_decision : Decision → List (String × Text) → Exec W Decision
  write_decision d files = if o.bundle == "" then pure d else (do
    artifacts ← h.write_dossier o.bundle d files
    pure (record d { artifacts = artifacts }))

  -- logDecision
  log_decision : Decision → Exec W (Unit {0})
  log_decision d =
      if o.log == "" then pure tt else h.append_log o.log (event_of d.verdict) (detail_of d)

  -- emitDecision
  pub emit_decision : Decision × List (String × Text) → Exec W ℕ
  emit_decision (d, files) = do
    written ← write_decision d files
    log_decision written
    pure (exit_code written.verdict)

  code_of : Result String ℕ × W → ℕ × W
  code_of (ok n, w) = (n, w)
  code_of (err m, w) = (2, w)

  known_stage : Bool
  known_stage = o.stage == "m0" || (o.stage == "m1" || (o.stage == "m2" || o.stage == "m3"))

  start : Bool → Bool → W → ℕ × W
  start true k w = (2, w)
  start false false w = (2, w)
  start false true w = code_of ((grade >>= emit_decision) w)

  -- main, as the code that the process exits with
  pub command : W → ℕ × W
  command w = start (o.case_path == "" || o.candidate == "") known_stage w
