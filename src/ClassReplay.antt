-- ===== src/ClassReplay.antt =====
-- pkg/classreplay/classreplay.go: Gate M2. `quote` is `%q`, strconv.Quote.
pub mod Laws
pub mod Verdict
pub mod Evidence
mod Tests
use arazu.Prelude.{
  ℕ, zero, suc, ◌-◌, String, Bool, true, false, ◌==◌, if◌then◌else◌, List, [], ◌∷◌, ◌++◌, Option,
  none, some, Result, ok, err, concat, decimal, codes, contains, length, ℤ, pos, negsuc, length_lt,
  Text, ◌+◌, not,
}
use arazu.Corpus.Reasons.{
  reason_class_not_defined, reason_class_observer_missing, reason_class_no_reference,
  reason_unadjudicated_behaviour_change, reason_class_replay_fail, reason_class_truncated,
}
use arazu.Corpus.Case.{FalsifyingClass, Case, PoV}
use arazu.Gate.Decision.{passed, failed, undecided, Outcome, StageResult}
use arazu.Gate.Verify.{Input, Stage}
use arazu.Gate.Exec.{Exec, pure, wrap, require, ◌>>=◌, ◌>>◌}

-- What a replay printed, by member: the map that `ReplayAgainst` returns.
abbrev pub Outputs : Type 0
Outputs = List (String × String)

pub record ClassTarget (W : Type 0) : Type 0 where
  pub generate : FalsifyingClass → Exec W (List String × ℤ)
  pub replay_against : String → List String → Exec W Outputs

pub record ClassStage (W : Type 0) : Type 0 where
  pub target : ClassTarget W
  pub candidate_patch : String
  pub reference_patch : String

pub record Member : Type 0 where
  pub name : String
  pub reference : String
  pub candidate : String

abbrev pub class_name : String
class_name = "class-replay"

abbrev pub result : Outcome → String → List String → StageResult
result o r ev = record { stage = class_name; outcome = o; reason = r; evidence = ev }

show_int : ℤ → String
show_int (pos n) = decimal n
show_int (negsuc n) = concat ("-" ∷ decimal (suc n) ∷ [])

pub output_of : String → Outputs → Option String
output_of m [] = none
output_of m ((k, v) ∷ rest) = if k == m then some v else output_of m rest

not_compared : (String → String) → String → String → Result String (List Member)
not_compared quote m who =
    err (concat ("class member " ∷ quote m ∷ " has no result from " ∷ who ∷ []))

prepend : Bool → Member → Result String (List Member) → Result String (List Member)
prepend agrees d (err e) = err e
prepend true d (ok ds) = ok ds
prepend false d (ok ds) = ok (d ∷ ds)

-- One member, from what each replay has for it; `rest` is the rest of the loop.
compare_member :
    (String → String)
    → String
    → Option String
    → Option String
    → Result String (List Member)
    → Result String (List Member)
compare_member quote m none c rest = not_compared quote m "the reference"
compare_member quote m (some r) none rest = not_compared quote m "the candidate"
compare_member quote m (some r) (some c) rest =
    prepend (r == c) (record { name = m; reference = r; candidate = c }) rest

-- The members on which the two replays disagree.
pub compare_all : (String → String) → Outputs → Outputs → List String → Result String (List Member)
compare_all quote ref cand [] = ok []
compare_all quote ref cand (m ∷ ms) =
    let rest = compare_all quote ref cand ms in
    compare_member quote m (output_of m ref) (output_of m cand) rest

-- Disagreements on members that the unpatched build did not crash on.
unintended_of : String → List Member → List Member
unintended_of expected [] = []
unintended_of expected (d ∷ ds) =
    if contains (codes d.reference) (codes expected)
    then unintended_of expected ds
    else d ∷ unintended_of expected ds

-- At most three disagreements, and how many more there are; `i` is the loop's index.
listing : (String → String) → String → ℕ → List Member → List String
listing quote who i [] = []
listing quote who (suc (suc (suc i))) (d ∷ ds) =
    concat ("...and " ∷ decimal (suc (length ds)) ∷ " more" ∷ []) ∷ []
listing quote who i (d ∷ ds) =
    concat (d.name ∷ ": " ∷ who ∷ " " ∷ quote d.reference ∷ ", candidate " ∷ quote d.candidate ∷ [])
    ∷ listing quote who (suc i) ds

no_class : StageResult
no_class = result undecided reason_class_not_defined (
    "the case defines no falsifying_class, so there is no class to replay"
    ∷ "gradable by the stages that do not need one; not by this stage" ∷ [])

no_observer : FalsifyingClass → StageResult
no_observer fc = result undecided reason_class_observer_missing (
    "the case declares a falsifying_class with no observer, so nothing produces the observation its discriminator names"
    ∷ concat ("discriminator: " ∷ fc.discriminator ∷ [])
    ∷ [])

oracle_name : Bool → String
oracle_name true = "the unpatched build"
oracle_name false = "the reference fix"

replay_evidence : FalsifyingClass → Bool → ℕ → ℤ → ℕ → List String
replay_evidence fc no_reference replayed declared disagreed =
    concat ("class: " ∷ fc.description ∷ [])
    ∷ concat ("generator: " ∷ fc.generator ∷ [])
    ∷ concat ("oracle: " ∷ oracle_name no_reference ∷ [])
    ∷ concat (
        decimal replayed
        ∷ " of "
        ∷ show_int declared
        ∷ " declared members replayed against "
        ∷ oracle_name no_reference
        ∷ " and the candidate"
        ∷ [])
    ∷ concat ("members on which they disagree: " ∷ decimal disagreed ∷ [])
    ∷ []

-- Against the unpatched build.
judge_change : (String → String) → List String → List Member → StageResult
judge_change quote evidence [] = result undecided reason_class_no_reference (
    evidence
    ++ "every divergence is on a member that crashed before the patch"
      ∷ "against the unpatched build that is indistinguishable from an incomplete fix, so the class does not adjudicate this candidate without a reference"
      ∷ [])
judge_change quote evidence (d ∷ ds) = result undecided reason_unadjudicated_behaviour_change (
    (evidence ++ listing quote "unpatched" 0 (d ∷ ds))
    ++ "these members did not crash before the patch and behave differently after it. Whether that is a fault is not something this differential can determine: a legitimate fix may tighten validation. Surfaced for a human to adjudicate."
      ∷ [])

truncated : List String → ℕ → ℤ → StageResult
truncated evidence replayed declared = result undecided reason_class_truncated (
    evidence
    ++ concat (
        "no divergence in "
        ∷ decimal replayed
        ∷ " of "
        ∷ show_int declared
        ∷ " declared members, which does not establish agreement across the class; raise the member bound to conclude"
        ∷ [])
      ∷ [])

agrees_throughout : List String → StageResult
agrees_throughout evidence =
    result passed ""
      (evidence ++ "the candidate agrees with the reference fix across the whole class" ∷ [])

-- Against the reference fix.
judge_fix : (String → String) → List String → ℕ → ℤ → List Member → StageResult
judge_fix quote evidence replayed declared (d ∷ ds) = result failed reason_class_replay_fail (
    (evidence ++ listing quote "reference" 0 (d ∷ ds))
    ++ "the candidate handles the crashing input but diverges from a known-good fix elsewhere in its class, which is what an incomplete fix does"
      ∷ [])
judge_fix quote evidence replayed declared [] =
    if length_lt replayed declared
    then truncated evidence replayed declared
    else agrees_throughout evidence

-- From the disagreements on; the flag says that there is no reference patch.
pub judge_class :
    (String → String) → Bool → FalsifyingClass → String → ℕ → ℤ → List Member → StageResult
judge_class quote true fc expected replayed declared ds =
    let unintended = unintended_of expected ds in
    judge_change quote
      (replay_evidence fc true replayed declared (length ds)
        ++ concat (
            "of those, "
            ∷ decimal (length unintended)
            ∷ " are on members the unpatched build did not crash on"
            ∷ [])
          ∷ [])
      unintended
judge_class quote false fc expected replayed declared ds =
    judge_fix quote (replay_evidence fc false replayed declared (length ds)) replayed declared ds

abbrev none_made : List String → Bool
none_made [] = true
none_made (m ∷ ms) = false

module _ {W : Type 0} (quote : String → String) (s : ClassStage W) (inp : Input) where
  pub replay : FalsifyingClass → Exec W StageResult
  replay fc = do
    generated ← wrap "generate the class" (s.target.generate fc)
    require (not (none_made generated.0))
        "the generator produced no class members, so nothing was replayed"
    ref ←
        wrap (concat ("replay against " ∷ oracle_name (s.reference_patch == "") ∷ []))
          (s.target.replay_against s.reference_patch generated.0)
    cand ←
        wrap "replay against the candidate" (s.target.replay_against s.candidate_patch generated.0)
    disagreed ← (λ w. (compare_all quote ref cand generated.0, w))
    pure (
        judge_class quote (s.reference_patch == "") fc inp.case.pov.expected_sanitizer
          (length generated.0) generated.1 disagreed)

  observe : Bool → FalsifyingClass → Exec W StageResult
  observe true fc = pure (no_observer fc)
  observe false fc = replay fc

  with_class : Option FalsifyingClass → Exec W StageResult
  with_class none = pure no_class
  with_class (some fc) = observe (fc.observer == "") fc

  -- Run
  pub class_run : Exec W StageResult
  class_run = with_class inp.case.falsifying_class

abbrev pub class_stage : {W : Type 0} → (String → String) → ClassStage W → Stage W
class_stage quote s = record { name = class_name; run = λ inp. class_run quote s inp }
